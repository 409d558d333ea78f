-- ===== src/Index/Crash.antt =====
-- What a crash during `save_index` of src/fs/inner.rs leaves: the old index, up to the third change, or the
-- whole new one.
use pqfs.Common.{
  ℕ, zero, suc, ◌+◌, ◌^◌, ◌≤◌, ◌<◌, ◌≡◌, refl, ap, Bytes, [], length, false, some, Result, Error,
  ok, err, crashed, arith, ltb, ltb→lt, ltb→le, Bool-cases, inl, inr, if◌then◌else◌,
}
use pqfs.Common.SortedMap.{SortedMap}
use pqfs.Backend.{
  Backend, header_file, index_file, create_file, write_all, rename, with_extension, read_file,
}
use pqfs.Crypto.Primitives.{Primitives, IsSound}
use pqfs.Crypto.Keys.{Crypto}
use pqfs.Crypto.Aead.{encrypt, decrypt}
use pqfs.Crypto.Aead.RoundTrip.{seal_blob_total}
use pqfs.Crypto.Volume.Crash.{restart}
use pqfs.Index.Entry.{Entry}
use pqfs.Index.Persist.{IndexCodec, Mount, replace_index, read_entries, save_index}
use pqfs.Index.Saved.{read_entries-sealed}

module _ (p : Primitives) (codec : IndexCodec) where
  -- The changes of `save_index` with `k` left to make.
  abbrev replaced : Bytes → Backend → ℕ → Result (Unit {0}) × Backend
  replaced c b k = replace_index p codec c (restart b k)

  replace_index_early :
      (c : Bytes) (b : Backend) (k : ℕ)
      → k < 3
      → (((replaced c b k).1).files index_file ≡ b.files index_file)
        × (((replaced c b k).1).files header_file ≡ b.files header_file)
        × (e : Error) × ((replaced c b k).0 ≡ err e)
  unfolding replace_index create_file write_all rename with_extension
  replace_index_early c b zero h = (refl, refl, crashed, refl)
  replace_index_early c b (suc zero) h = (refl, refl, crashed, refl)
  replace_index_early c b (suc (suc zero)) h = (refl, refl, crashed, refl)
  replace_index_early c b (suc (suc (suc k))) h = absurd (omega (arith, h))

  replace_index_late :
      (c : Bytes) (b : Backend) (k : ℕ)
      → 3 ≤ k
      → (((replaced c b k).1).files index_file ≡ some c)
        × (((replaced c b k).1).files header_file ≡ b.files header_file)
        × ((replaced c b k).0 ≡ ok tt)
  unfolding replace_index create_file write_all rename with_extension
  replace_index_late c b (suc (suc (suc k))) h = (refl, refl, refl)
  replace_index_late c b zero h = absurd (omega (arith, h))
  replace_index_late c b (suc zero) h = absurd (omega (arith, h))
  replace_index_late c b (suc (suc zero)) h = absurd (omega (arith, h))

  read_entries-file :
      (crypto : Crypto) (b b' : Backend)
      → b.files index_file ≡ b'.files index_file
      → (read_entries p codec crypto b).0 ≡ (read_entries p codec crypto b').0
  unfolding read_entries read_file
  read_entries-file crypto b b' same = ground (arith, same)

  module _ (sound : IsSound p) (crypto : Crypto) (m : Mount) (cipher : length crypto.cipher ≡ 32)
      (fits : length (codec.serialize (m.inner).entries) ≤ 2 ^ 37)
      (faithful : codec.deserialize (codec.serialize (m.inner).entries)
        ≡ some (m.inner).entries) where
    abbrev dying : ℕ → Mount
    dying k = record m { backend = restart m.backend k }

    -- What is left, in memory and on disk.
    pub record IsAtomic (k n : ℕ) (m' : Mount) : Type 0 where
      pub read :
          (read_entries p codec crypto (restart m'.backend n)).0
          ≡ (if ltb k 3 then (read_entries p codec crypto m.backend).0 else ok (m.inner).entries)
      pub header : (m'.backend).files header_file ≡ (m.backend).files header_file
      pub inner : m'.inner ≡ record (m.inner) { dirty = if ltb k 3 then (m.inner).dirty else false }

    -- With a sound cipher, a key of 32 bytes, and entries that fit a message of the cipher and are read back
    -- by the codec: wherever the process dies during `save_index`, the next read of the index gives what it
    -- gave before, up to the third change, and the entries in memory from then on. The header is untouched.
    -- In memory only the dirty flag can change: it stays as it was until the third change is made, and then
    -- is cleared.
    pub save_index-IsAtomic : (k n : ℕ) → IsAtomic k n (save_index p codec crypto (dying k)).1
    unfolding save_index encrypt decrypt
    save_index-IsAtomic k n =
        let plain = codec.serialize (m.inner).entries in
        let s = seal_blob_total p sound crypto.cipher [] plain (m.backend).draws cipher fits in
        let b : Backend = record (m.backend) { draws = (m.backend).draws + 1 } in
        let left = (replaced s.blob b k).1 in
        elim (Bool-cases (ltb k 3)) [
          | inl early ↦
              let (file, header, e, failed) = replace_index_early s.blob b k (ltb→lt k 3 early) in
              let pair : replaced s.blob b k ≡ (err e, left) =
                ap (λ (r : Result (Unit {0})). (r, left)) failed in
              let run : save_index p codec crypto (dying k)
                  ≡ (err e, record { inner = m.inner; backend = left }) =
                rw (s.sealed, pair) refl in
              rw run (record {
                read = rw early (read_entries-file crypto (restart left n) m.backend file);
                header = header;
                inner = rw early refl;
              })
          | inr late ↦
              let (file, header, done_all) = replace_index_late s.blob b k (ltb→le k 3 late) in
              let pair : replaced s.blob b k ≡ (ok tt, left) =
                ap (λ (r : Result (Unit {0})). (r, left)) done_all in
              let run : save_index p codec crypto (dying k)
                  ≡ (ok tt, record { inner = record (m.inner) { dirty = false }; backend = left }) =
                rw (s.sealed, pair) refl in
              rw run (record {
                read = rw late (
                    ap (λ (r : Result (SortedMap Entry) × Backend). r.0)
                      (read_entries-sealed p codec crypto (restart left n) s.blob plain
                        (m.inner).entries file s.opens faithful));
                header = header;
                inner = rw late refl;
              })
        ]
