-- ===== src/Crypto/Volume/Crash.antt =====
-- What a crash during `commit_rekey` leaves for the next command. The changes are counted: two for the
-- staged index, two for the staged header, two for the marker, two renames, and the marker's removal.
use pqfs.Common.{
  ℕ, zero, suc, ◌≤◌, ◌<◌, ◌≡◌, ap, sym, subst, Bytes, Result, ok, err, some, none, arith,
  incomplete_rekey,
}
use pqfs.Common.Exec.{and_then}
use pqfs.Backend.{
  Backend, header_file, index_file, rekey_marker, header_staging, index_staging, write_synced,
  rename, remove_file,
}
use pqfs.Crypto.Primitives.{Primitives}
use pqfs.Crypto.Header.{VolumeHeader}
use pqfs.Crypto.Keys.{HeaderCodec}
use pqfs.Crypto.Volume.Store.{read_header, recover, seal_header, swap_in, commit_rekey}

-- The backend as a new process finds it.
abbrev pub restart : Backend → ℕ → Backend
restart b n = record b { power = n }

module _ (p : Primitives) (codec : HeaderCodec) (header sealed : VolumeHeader)
    (master_key index : Bytes) (seals : seal_header p codec header master_key ≡ ok sealed)
    (b : Backend) (unmarked : b.files rekey_marker ≡ none) where
  abbrev left : ℕ → Backend
  left k = (commit_rekey p codec header master_key index (restart b k)).1

  commit_rekey_run : (k : ℕ) → left k ≡ (swap_in p codec sealed index (restart b k)).1
  unfolding commit_rekey
  commit_rekey_run k =
      ap (λ (r : Result VolumeHeader). (and_then (r, restart b k) (λ s. swap_in p codec s index)).1)
        seals

  abbrev swapped : ℕ → Backend
  swapped k = (swap_in p codec sealed index (restart b k)).1

  -- The old pair is in place and needs no recovery.
  abbrev pub IsOld : Backend → ℕ → Type 0
  IsOld s n =
      (recover (restart s n) ≡ (ok tt, restart s n))
      × (s.files header_file ≡ b.files header_file)
      × (s.files index_file ≡ b.files index_file)

  before_marker : (k n : ℕ) → k < 5 → IsOld (swapped k) n
  unfolding swap_in write_synced rename remove_file
  before_marker zero n h = ground arith
  before_marker (suc zero) n h = ground arith
  before_marker (suc (suc zero)) n h = ground arith
  before_marker (suc (suc (suc zero))) n h = ground arith
  before_marker (suc (suc (suc (suc zero)))) n h = ground arith
  before_marker (suc (suc (suc (suc (suc k))))) n h = absurd (omega arith)

  -- From a backend without the marker, with a header that seals: if the process dies in `commit_rekey`
  -- before the marker is made, within 4 changes, the old header and index are in place, and the next
  -- command finds nothing to recover.
  pub commit_rekey_before_marker : (k n : ℕ) → k < 5 → IsOld (left k) n
  commit_rekey_before_marker k n h = rw commit_rekey_run (before_marker k n h)

  -- The new pair is in place once a recovery has run.
  abbrev pub IsNew : Result (Unit {0}) × Backend → Type 0
  IsNew r =
      (r.0 ≡ ok tt)
      × (r.1.files header_file ≡ some (codec.serialize sealed))
      × (r.1.files index_file ≡ some index)
      × (r.1.files rekey_marker ≡ none)

  at_marker : (k n : ℕ) → 5 ≤ k → k < 7 → 3 ≤ n → IsNew (recover (restart (swapped k) n))
  unfolding swap_in write_synced rename remove_file
  at_marker (suc (suc (suc (suc (suc zero))))) (suc (suc (suc n))) h h' g = ground arith
  at_marker (suc (suc (suc (suc (suc (suc zero)))))) (suc (suc (suc n))) h h' g = ground arith
  at_marker k n h h' g = absurd (omega arith)

  -- From a backend without the marker, with a header that seals: if the process dies in `commit_rekey`
  -- after 5 or 6 changes, between the marker and the swap, a recovery that can make 3 changes succeeds,
  -- puts the sealed header and the new index in place, and removes the marker.
  pub commit_rekey_at_marker :
      (k n : ℕ) → 5 ≤ k → k < 7 → 3 ≤ n → IsNew (recover (restart (left k) n))
  commit_rekey_at_marker k n h h' g = rw commit_rekey_run (at_marker k n h h' g)

  torn :
      (k n : ℕ)
      → 7 ≤ k
      → k < 9
      → recover (restart (swapped k) n) ≡ (err incomplete_rekey, restart (swapped k) n)
  unfolding swap_in write_synced rename remove_file
  torn (suc (suc (suc (suc (suc (suc (suc zero))))))) n h h' = ground arith
  torn (suc (suc (suc (suc (suc (suc (suc (suc zero)))))))) n h h' = ground arith
  torn k n h h' = absurd (omega arith)

  -- From a backend without the marker, with a header that seals: if the process dies in `commit_rekey`
  -- after 7 or 8 changes, past the first rename of the swap and before the marker is removed, reading the
  -- header fails from then on with the error of an incomplete rekey, and changes nothing.
  pub commit_rekey_torn :
      (k n : ℕ)
      → 7 ≤ k
      → k < 9
      → read_header p codec (restart (left k) n) ≡ (err incomplete_rekey, restart (left k) n)
  unfolding read_header
  commit_rekey_torn k n h h' = rw commit_rekey_run (rw (torn k n h h'))

  -- The header and the index when the swap was made to its end.
  abbrev pub IsSwapped : Result VolumeHeader × Backend → Type 0
  IsSwapped r =
      (r.0 ≡ ok sealed)
      × (r.1.files header_file ≡ some (codec.serialize sealed))
      × (r.1.files index_file ≡ some index)
      × (r.1.files rekey_marker ≡ none)
      × (r.1.files header_staging ≡ none)
      × (r.1.files index_staging ≡ none)

  whole : (k : ℕ) → 9 ≤ k → IsSwapped (swap_in p codec sealed index (restart b k))
  unfolding swap_in write_synced rename remove_file
  whole (suc (suc (suc (suc (suc (suc (suc (suc (suc k))))))))) h = ground arith
  whole k h = absurd (omega arith)

  -- From a backend without the marker, with a header that seals: a `commit_rekey` that can make its 9
  -- changes returns the sealed header, puts it and the new index in place, and leaves no staged file and
  -- no marker.
  pub commit_rekey_whole :
      (k : ℕ) → 9 ≤ k → IsSwapped (commit_rekey p codec header master_key index (restart b k))
  unfolding commit_rekey
  commit_rekey_whole k h =
      subst
        (λ (r : Result VolumeHeader).
          IsSwapped (and_then (r, restart b k) (λ s. swap_in p codec s index)))
        (sym seals) (whole k h)
