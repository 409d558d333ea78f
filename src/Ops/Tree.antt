-- ===== src/Ops/Tree.antt =====
-- The handlers that add, remove and move entries: `create`, `mkdir`, `symlink`, `unlink`, `rmdir` and
-- `rename` of src/fs/ops.rs. Names are bytes past `to_string_lossy`. A data file that cannot be removed is
-- only logged.
use pqfs.Common.{
  ℕ, zero, suc, ◌+◌, ◌%◌, Bytes, length, [], Bool, true, false, none, some, Result, ok, err,
  bail_if, ok_or, if◌then◌else◌, ◌==◌, ◌&&◌, not, enoent, eexist, enotdir, eisdir, enotempty,
  einval,
}
use pqfs.Common.SortedMap
use pqfs.Common.Exec.{Exec, ◌>>=◌, ◌>>◌, pure, lift, gets}
use pqfs.Backend.{FilePath, exists, remove_file}
use pqfs.Crypto.Primitives.{Primitives}
use pqfs.Crypto.Keys.{Crypto, random_key}
use pqfs.Crypto.Aead.{encrypt}
use pqfs.Crypto.Volume.Store.{with_draws}
use pqfs.Index.Entry.{Entry, EntryKind, at_time}
use pqfs.Index.State.{
  Inner, root_ino, allocate_ino, insert_entry, remove_entry, relink, has_children,
}
use pqfs.Index.Names.{FileAttr, attr_for, find_child, hash_filename, encrypt_filename}
use pqfs.Index.Persist.{IndexCodec, Mount, on_disk, save_index}
use pqfs.Ops.Data.{as_eio}

-- The caller: the clock, and `getuid` and `getgid`.
pub record Caller : Type 0 where
  pub clock : ℕ
  pub uid : ℕ
  pub gid : ℕ

unfoldable pub is_dir : EntryKind → Bool
is_dir EntryKind.dir = true
is_dir _ = false

-- A change of the index in memory that has a result.
abbrev pub on_inner : {A : Type 0} → (Inner → A × Inner) → Exec Mount A
on_inner f m = let (a, s) = f m.inner in (ok a, record m { inner = s })

-- `data_path.exists() && fs::remove_file(..)`, whose failure is only logged
unfoldable pub drop_data : ℕ → Exec Mount (Unit {0})
drop_data ino m =
    if exists (FilePath.data_file ino) m.backend
    then (ok tt, record m { backend = (remove_file (FilePath.data_file ino) m.backend).1 })
    else (ok tt, m)

-- The loop of `is_descendant_of`, with the hops that are left.
unfoldable pub climb : ℕ → ℕ → ℕ → Inner → Bool
climb zero ino ancestor s = ino == ancestor
climb (suc hops) ino ancestor s =
    if ino == root_ino
    then ino == ancestor
    else if ino == ancestor
    then true
    else elim (SortedMap.get ino s.entries) [
      | none ↦ false
      | some e ↦ climb hops e.parent ancestor s
    ]

unfoldable pub is_descendant_of : ℕ → ℕ → Inner → Bool
unfolding climb
is_descendant_of ino ancestor s = climb (length s.entries + 1) ino ancestor s

-- Whether a `rename` may replace what has the new name.
unfoldable pub may_replace : EntryKind → Entry → Inner → Result (Unit {0})
may_replace source existing s =
    if is_dir source
    then (if is_dir existing.kind
        then bail_if (has_children existing.ino s) enotempty
        else err enotdir)
    else bail_if (is_dir existing.kind) eisdir

module _ (p : Primitives) (codec : IndexCodec) (crypto : Crypto) where
  -- `find_child`, or ENOENT
  abbrev pub child_or_fail : ℕ → Bytes → Exec Mount Entry
  child_or_fail parent name m = (ok_or (find_child p crypto parent name m.inner) enoent, m)

  unfoldable pub is_taken : ℕ → Bytes → Inner → Bool
  is_taken parent name s = elim (find_child p crypto parent name s) [ none ↦ false | some e ↦ true ]

  -- The end of `create`, `mkdir` and `symlink`.
  unfoldable pub insert_saved : Entry → Exec Mount FileAttr
  insert_saved e = do
    on_inner (λ s. (tt, insert_entry e s))
    as_eio (save_index p codec crypto)
    pure (attr_for e)

  unfoldable pub create : Caller → ℕ → Bytes → ℕ → Exec Mount FileAttr
  create caller parent name mode = do
    taken ← gets (λ m. is_taken parent name m.inner)
    lift (bail_if taken eexist)
    ino ← on_inner allocate_ino
    name_encrypted ← as_eio (on_disk (with_draws (encrypt_filename p crypto name)))
    key ← on_disk (with_draws (random_key p))
    content_key ← as_eio (on_disk (with_draws (encrypt p crypto.cipher key)))
    insert_saved (record {
      ino = ino;
      parent = parent;
      name_hash = hash_filename p crypto name;
      name_encrypted = name_encrypted;
      content_key = content_key;
      kind = EntryKind.file;
      size = 0;
      perm = mode % 65536 % 512;
      uid = caller.uid;
      gid = caller.gid;
      times = at_time caller.clock;
      link_target = [];
    })

  unfoldable pub mkdir : Caller → ℕ → Bytes → ℕ → Exec Mount FileAttr
  mkdir caller parent name mode = do
    taken ← gets (λ m. is_taken parent name m.inner)
    lift (bail_if taken eexist)
    ino ← on_inner allocate_ino
    name_encrypted ← as_eio (on_disk (with_draws (encrypt_filename p crypto name)))
    insert_saved (record {
      ino = ino;
      parent = parent;
      name_hash = hash_filename p crypto name;
      name_encrypted = name_encrypted;
      content_key = [];
      kind = EntryKind.dir;
      size = 0;
      perm = mode % 65536 % 512;
      uid = caller.uid;
      gid = caller.gid;
      times = at_time caller.clock;
      link_target = [];
    })

  unfoldable pub symlink : Caller → ℕ → Bytes → Bytes → Exec Mount FileAttr
  symlink caller parent name target = do
    taken ← gets (λ m. is_taken parent name m.inner)
    lift (bail_if taken eexist)
    link_target ← as_eio (on_disk (with_draws (encrypt_filename p crypto target)))
    ino ← on_inner allocate_ino
    name_encrypted ← as_eio (on_disk (with_draws (encrypt_filename p crypto name)))
    insert_saved (record {
      ino = ino;
      parent = parent;
      name_hash = hash_filename p crypto name;
      name_encrypted = name_encrypted;
      content_key = [];
      kind = EntryKind.symlink;
      size = length target;
      perm = 511;
      uid = caller.uid;
      gid = caller.gid;
      times = at_time caller.clock;
      link_target = link_target;
    })

  unfoldable pub unlink : ℕ → Bytes → Exec Mount (Unit {0})
  unlink parent name = do
    e ← child_or_fail parent name
    lift (bail_if (is_dir e.kind) eisdir)
    _ ← on_inner (remove_entry e.ino)
    drop_data e.ino
    as_eio (save_index p codec crypto)

  unfoldable pub rmdir : ℕ → Bytes → Exec Mount (Unit {0})
  rmdir parent name = do
    e ← child_or_fail parent name
    lift (bail_if (not (is_dir e.kind)) enotdir)
    some_children ← gets (λ m. has_children e.ino m.inner)
    lift (bail_if some_children enotempty)
    _ ← on_inner (remove_entry e.ino)
    as_eio (save_index p codec crypto)

  -- `rename` makes room for the new name: what has it is removed, unless it is the source itself.
  unfoldable pub make_room : Entry → ℕ → Bytes → Exec Mount (Unit {0})
  make_room source newparent newname m = elim (find_child p crypto newparent newname m.inner) [
    | none ↦ (ok tt, m)
    | some existing ↦
        if existing.ino == source.ino
        then (ok tt, m)
        else (do
          lift (may_replace source.kind existing m.inner)
          _ ← on_inner (remove_entry existing.ino)
          drop_data existing.ino)
            m
  ]

  unfoldable pub rename : ℕ → ℕ → Bytes → ℕ → Bytes → Exec Mount (Unit {0})
  rename clock parent name newparent newname = do
    source ← child_or_fail parent name
    target ← λ m. (ok_or (SortedMap.get newparent (m.inner).entries) enoent, m)
    lift (bail_if (not (is_dir target.kind)) enotdir)
    below ← gets (λ m. is_dir source.kind && is_descendant_of newparent source.ino m.inner)
    lift (bail_if below einval)
    make_room source newparent newname
    name_encrypted ← as_eio (on_disk (with_draws (encrypt_filename p crypto newname)))
    on_inner (λ s.
        (tt, relink clock source.ino newparent (hash_filename p crypto newname) name_encrypted s))
    as_eio (save_index p codec crypto)
