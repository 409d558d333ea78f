-- ===== src/Index/Persist.antt =====
-- The index on disk: `load`, `save_index`, `flush_index` and `rekey_index` of src/fs/inner.rs. What bincode
-- writes and reads of the entries is a parameter.
use pqfs.Common.{
  ℕ, ◌+◌, Bytes, [], ◌∷◌, false, Option, none, some, ok, ok_or, if◌then◌else◌, length, ◌==◌,
  index_parse,
}
use pqfs.Common.SortedMap
use pqfs.Common.SortedMap.{SortedMap}
use pqfs.Common.Exec.{Exec, ◌>>=◌, ◌>>◌, pure, lift, gets}
use pqfs.Backend.{
  Backend, Extension, index_file, with_extension, exists, read_file, create_file, write_all, rename,
}
use pqfs.Crypto.Primitives.{Primitives}
use pqfs.Crypto.Keys.{Crypto}
use pqfs.Crypto.Aead.{encrypt, decrypt}
use pqfs.Crypto.Volume.Store.{with_draws}
use pqfs.Index.Entry.{Entry, EntryKind, at_time}
use pqfs.Index.State.{Inner, root_ino, rebuild_indexes}
use pqfs.Index.Names.{hash_filename, encrypt_filename, decrypt_filename}

pub record IndexCodec : Type 0 where
  pub serialize : SortedMap Entry → Bytes
  pub deserialize : Bytes → Option (SortedMap Entry)

-- What a process mounts: its index and the backend.
pub record Mount : Type 0 where
  pub inner : Inner
  pub backend : Backend

abbrev pub on_disk : {A : Type 0} → Exec Backend A → Exec Mount A
on_disk m s = let (r, b) = m s.backend in (r, record s { backend = b })

-- `keys().next_back().copied().unwrap_or(FUSE_ROOT_ID) + 1`
unfoldable pub next_after : SortedMap Entry → ℕ
next_after entries = (elim (SortedMap.last_key entries) [ none ↦ root_ino | some i ↦ i ]) + 1

unfoldable pub root_entry : ℕ → ℕ → ℕ → Bytes → Bytes → Entry
root_entry now uid gid hash name = record {
  ino = root_ino;
  parent = root_ino;
  name_hash = hash;
  name_encrypted = name;
  content_key = [];
  kind = EntryKind.dir;
  size = 0;
  perm = 493;
  uid = uid;
  gid = gid;
  times = at_time now;
  link_target = [];
}

unfoldable pub with_entries : SortedMap Entry → ℕ → Inner
unfolding rebuild_indexes
with_entries entries next_ino = rebuild_indexes (record {
  entries = entries;
  next_ino = next_ino;
  children = [];
  by_parent = [];
  dirty = false;
})

module _ (p : Primitives) (codec : IndexCodec) where
  -- The entries of the index file under a key.
  unfoldable pub read_entries : Crypto → Exec Backend (SortedMap Entry)
  read_entries crypto = do
    bytes ← λ b. (read_file index_file b, b)
    plaintext ← lift (decrypt p crypto.cipher bytes)
    lift (ok_or (codec.deserialize plaintext) index_parse)

  unfoldable pub load : ℕ → ℕ → ℕ → Crypto → Exec Backend Inner
  load now uid gid crypto b =
      if exists index_file b
      then (do entries ← read_entries crypto; pure (with_entries entries (next_after entries))) b
      else (do
        name ← with_draws (encrypt_filename p crypto [])
        let root = root_entry now uid gid (hash_filename p crypto []) name
        pure (with_entries ((root_ino, root) ∷ []) (root_ino + 1)))
          b

  -- The changes of `save_index`: a temporary file is renamed over the index.
  unfoldable pub replace_index : Bytes → Exec Backend (Unit {0})
  replace_index ciphertext = do
    let staged = with_extension index_file Extension.tmp
    create_file staged
    write_all staged ciphertext
    rename staged index_file

  unfoldable pub save_index : Crypto → Exec Mount (Unit {0})
  save_index crypto = do
    entries ← gets (λ s. (s.inner).entries)
    ciphertext ← on_disk (with_draws (encrypt p crypto.cipher (codec.serialize entries)))
    on_disk (replace_index ciphertext)
    λ s. (ok tt, record s { inner = record (s.inner) { dirty = false } })

  unfoldable pub flush_index : Crypto → Exec Mount (Unit {0})
  flush_index crypto s = if (s.inner).dirty then save_index crypto s else (ok tt, s)

  -- One entry of `rekey_index`: its content key, its name with the hash, and its link target.
  unfoldable pub rekey_content_key : Crypto → Crypto → Entry → Exec ℕ Entry
  rekey_content_key old new e = if length e.content_key == 0 then pure e else do
    content_key ← lift (decrypt p old.cipher e.content_key)
    blob ← encrypt p new.cipher content_key
    pure (record e { content_key = blob })

  unfoldable pub rekey_name : Crypto → Crypto → Entry → Exec ℕ Entry
  rekey_name old new e = if length e.name_encrypted == 0 then pure e else do
    name ← lift (decrypt_filename p old e.name_encrypted)
    blob ← encrypt_filename p new name
    pure (record e { name_encrypted = blob; name_hash = hash_filename p new name })

  unfoldable pub rekey_link_target : Crypto → Crypto → Entry → Exec ℕ Entry
  rekey_link_target old new e = if length e.link_target == 0 then pure e else do
    target ← lift (decrypt_filename p old e.link_target)
    blob ← encrypt_filename p new target
    pure (record e { link_target = blob })

  unfoldable pub rekey_entry : Crypto → Crypto → Entry → Exec ℕ Entry
  rekey_entry old new e = do
    keyed ← rekey_content_key old new e
    named ← rekey_name old new keyed
    rekey_link_target old new named

  unfoldable pub rekey_entries : Crypto → Crypto → SortedMap Entry → Exec ℕ (SortedMap Entry)
  rekey_entries old new [] = pure []
  rekey_entries old new ((ino, e) ∷ es) = do
    e' ← rekey_entry old new e
    es' ← rekey_entries old new es
    pure ((ino, e') ∷ es')

  unfoldable pub rekey_index : Crypto → Crypto → Exec Backend Bytes
  rekey_index old new = do
    entries ← λ b. if exists index_file b then read_entries old b else (ok [], b)
    rekeyed ← with_draws (rekey_entries old new entries)
    with_draws (encrypt p new.cipher (codec.serialize rekeyed))
