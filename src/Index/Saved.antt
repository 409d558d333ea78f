-- ===== src/Index/Saved.antt =====
-- The index on disk: what `save_index` writes, `load` reads back (src/fs/inner.rs).
use pqfs.Common.{
  ℕ, suc, ◌+◌, ◌^◌, ◌≤◌, ◌≡◌, refl, sym, ◌∙◌, subst, Bytes, length, [], false, some, ok, arith,
}
use pqfs.Common.SortedMap.{SortedMap}
use pqfs.Backend.{Backend, index_file, create_file, write_all, rename, read_file, with_extension}
use pqfs.Crypto.Primitives.{Primitives, IsSound}
use pqfs.Crypto.Keys.{Crypto}
use pqfs.Crypto.Aead.{encrypt, decrypt}
use pqfs.Crypto.Aead.RoundTrip.{seal_blob_total}
use pqfs.Index.Entry.{Entry}
use pqfs.Index.Persist.{IndexCodec, Mount, replace_index, read_entries, save_index}

-- What the three changes of `save_index` leave: the new bytes, and what was there of the rest.
record IsReplaced (p : Primitives) (codec : IndexCodec) (c : Bytes) (b : Backend) : Type 0 where
  after : Backend
  runs : replace_index p codec c b ≡ (ok tt, after)
  file : after.files index_file ≡ some c

module _ (p : Primitives) (codec : IndexCodec) where
  replace_index_total :
      (c : Bytes) (b : Backend) (n : ℕ) → b.power ≡ suc (suc (suc n)) → IsReplaced p codec c b
  unfolding replace_index create_file write_all rename with_extension
  replace_index_total c b n power =
      subst (λ k. IsReplaced p codec c (record b { power = k })) (sym power)
        (record {
          after = (replace_index p codec c (record b { power = suc (suc (suc n)) })).1;
          runs = refl;
          file = refl;
        })

  pub read_entries-sealed :
      (crypto : Crypto) (b : Backend) (blob plain : Bytes) (entries : SortedMap Entry)
      → b.files index_file ≡ some blob
      → decrypt p crypto.cipher blob ≡ ok plain
      → codec.deserialize plain ≡ some entries
      → read_entries p codec crypto b ≡ (ok entries, b)
  unfolding read_entries read_file
  read_entries-sealed crypto b blob plain entries file opens faithful =
      rw (file, read_file) (rw opens (rw faithful refl))

  -- `save_index` where nothing keeps it from succeeding.
  pub record IsSaved (sound : IsSound p) (crypto : Crypto) (m : Mount) : Type 0 where
    pub after : Backend
    pub blob : Bytes
    pub runs :
        save_index p codec crypto m
        ≡ (ok tt, record { inner = record (m.inner) { dirty = false }; backend = after })
    pub file : after.files index_file ≡ some blob
    pub opens : decrypt p crypto.cipher blob ≡ ok (codec.serialize (m.inner).entries)

  pub save_index_total :
      (sound : IsSound p) (crypto : Crypto) (m : Mount) (n : ℕ)
      → length crypto.cipher ≡ 32
      → (m.backend).power ≡ n + 3
      → length (codec.serialize (m.inner).entries) ≤ 2 ^ 37
      → IsSaved sound crypto m
  unfolding save_index encrypt decrypt
  save_index_total sound crypto m n cipher power fits =
      let plain = codec.serialize (m.inner).entries in
      let s = seal_blob_total p sound crypto.cipher [] plain (m.backend).draws cipher fits in
      let b : Backend = record (m.backend) { draws = (m.backend).draws + 1 } in
      let r = replace_index_total s.blob b n (power ∙ omega arith) in
      record {
        after = r.after;
        blob = s.blob;
        runs = rw (s.sealed, r.runs) refl;
        file = r.file;
        opens = s.opens;
      }

  -- With a sound cipher, a key of 32 bytes, and a backend that can still be changed three times: if the entries
  -- fit a message of the cipher and the codec reads back what it writes of them, `save_index` succeeds, changes
  -- nothing of the index in memory but its flag, and the entries are read back from the index file.
  pub read_entries-save_index :
      (sound : IsSound p) (crypto : Crypto) (m : Mount) (n : ℕ)
      → length crypto.cipher ≡ 32
      → (m.backend).power ≡ n + 3
      → length (codec.serialize (m.inner).entries) ≤ 2 ^ 37
      → codec.deserialize (codec.serialize (m.inner).entries) ≡ some (m.inner).entries
      → (m' : Mount) × (save_index p codec crypto m ≡ (ok tt, m'))
        × (m'.inner ≡ record (m.inner) { dirty = false })
        × (read_entries p codec crypto m'.backend ≡ (ok (m.inner).entries, m'.backend))
  read_entries-save_index sound crypto m n cipher power fits faithful =
      let r = save_index_total sound crypto m n cipher power fits in
      (
        record { inner = record (m.inner) { dirty = false }; backend = r.after },
        r.runs,
        refl,
        read_entries-sealed crypto r.after r.blob (codec.serialize (m.inner).entries)
            (m.inner).entries r.file r.opens faithful,
      )
