-- ===== src/Crypto/Volume/Rewrite.antt =====
-- `write_header` replaces the header in one step, also when the process dies, and the volume opens
-- afterwards with the credentials that opened it before.
use pqfs.Common.{
  if◌then◌else◌, ℕ, zero, suc, ◌≤◌, ◌≡◌, sym, ap, ◌∙◌, Bytes, length, [], Result, ok, some, none,
  arith, ltb, Bool-cases, inl, inr, ltb→lt, ltb→le, append-nil, ◌<◌,
}
use pqfs.Common.Exec.{and_then}
use pqfs.Backend.{
  Backend, header_file, index_file, rekey_marker, rename, create_file, write_all, with_extension,
}
use pqfs.Crypto.Primitives.{Primitives}
use pqfs.Crypto.Header.{VolumeHeader, header_version, max_header_bytes}
use pqfs.Crypto.Keys.{HeaderCodec, IsFaithful, Crypto, derive_header_mac_key, from_master_key}
use pqfs.Crypto.Volume.Slots.{Unlock, open_master_key}
use pqfs.Crypto.Volume.Store.{seal_header, replace_header, write_header, unlock}
use pqfs.Crypto.Volume.Crash.{restart}
use pqfs.Crypto.Volume.Reopen.{Holds, read_header-Holds, open_master_key-append}
use pqfs.Crypto.Volume.Mac.{verify-seal}

module _ (p : Primitives) (codec : HeaderCodec) (faithful : IsFaithful codec) where
  module _ (header sealed : VolumeHeader) (master_key : Bytes) (b : Backend)
      (seals : seal_header p codec header master_key ≡ ok sealed)
      (version : header.version ≡ header_version)
      (small : length (codec.serialize sealed) ≤ max_header_bytes)
      (unmarked : b.files rekey_marker ≡ none) where
    replace_header-files :
        (k : ℕ)
        → 3 ≤ k
        → ((replace_header p codec sealed (restart b k)).0 ≡ ok sealed)
          × ((replace_header p codec sealed (restart b k)).1.files header_file
              ≡ some (codec.serialize sealed))
          × ((replace_header p codec sealed (restart b k)).1.files rekey_marker ≡ none)
          × ((replace_header p codec sealed (restart b k)).1.files index_file ≡ b.files index_file)
    unfolding replace_header create_file write_all rename with_extension
    replace_header-files (suc (suc (suc k))) h = ground arith
    replace_header-files k h = absurd (omega arith)

    replace_header_early :
        (k : ℕ)
        → k < 3
        → ((replace_header p codec sealed (restart b k)).1.files header_file ≡ b.files header_file)
          × ((replace_header p codec sealed (restart b k)).1.files rekey_marker ≡ none)
          × ((replace_header p codec sealed (restart b k)).1.files index_file ≡ b.files index_file)
    unfolding replace_header create_file write_all rename with_extension
    replace_header_early zero h = ground arith
    replace_header_early (suc zero) h = ground arith
    replace_header_early (suc (suc zero)) h = ground arith
    replace_header_early (suc (suc (suc k))) h = absurd (omega arith)

    abbrev pub written : ℕ → Result VolumeHeader × Backend
    written k = write_header p codec header master_key (restart b k)

    write_header_run : (k : ℕ) → written k ≡ replace_header p codec sealed (restart b k)
    unfolding write_header
    write_header_run k =
        ap (λ (r : Result VolumeHeader). and_then (r, restart b k) (replace_header p codec)) seals

    pub write_header-ok : (k : ℕ) → 3 ≤ k → (written k).0 ≡ ok sealed
    write_header-ok k h = rw write_header_run (replace_header-files k h).0

    -- For a header of this version that seals within the size limit, and no rekey marker: wherever
    -- the process dies during `write_header` the index is untouched, and the header file is the old one up to
    -- the third change and the whole new one from then on.
    pub write_header_atomic :
        (k : ℕ)
        → ((written k).1.files index_file ≡ b.files index_file)
          × ((written k).1.files header_file
              ≡ (if ltb k 3 then b.files header_file else some (codec.serialize sealed)))
    write_header_atomic k = rw write_header_run (elim (Bool-cases (ltb k 3)) [
      | inl early ↦ let r = replace_header_early k (ltb→lt k 3 early) in (r.2, rw early r.0)
      | inr late ↦ let r = replace_header-files k (ltb→le k 3 late) in (r.3, rw late r.1)
    ])

    pub sealed_fields :
        (sealed.version ≡ header.version)
        × (sealed.volume_id ≡ header.volume_id)
        × (sealed.slots ≡ header.slots)
    unfolding seal_header
    sealed_fields = ground (arith, seals)

    -- The header that was written is the one that the next command reads.
    pub write_header-Holds :
        (k n : ℕ) → 3 ≤ k → Holds p codec faithful (restart (written k).1 n) sealed
    write_header-Holds k n h =
        let r = replace_header-files k h in
        rw write_header_run (record {
          unmarked = r.2;
          on_disk = r.1;
          version = sealed_fields.0 ∙ version;
          small = small;
        })

    -- After a `write_header` that can make its 3 changes, of a header of this version that seals within the
    -- size limit, whatever MAC it had, with no rekey marker: a credential that opens the header to its master
    -- key unlocks the volume, if the MAC key and the volume's keys derive; and the slots are the header's.
    pub unlock-write_header :
        (credential : Unlock) (mac_key : Bytes) (this : Crypto) (k n : ℕ)
        → 3 ≤ k
        → derive_header_mac_key p master_key ≡ ok mac_key
        → open_master_key p header credential ≡ ok master_key
        → from_master_key p master_key sealed ≡ ok this
        → (unlock p codec credential (restart (written k).1 n) ≡ (ok this, restart (written k).1 n))
          × (sealed.slots ≡ header.slots)
    unfolding unlock
    unlock-write_header credential mac_key this k n h mac opens made =
        let s = sealed_fields in
        let opened : open_master_key p sealed credential ≡ ok master_key =
          open_master_key-append p codec faithful header sealed [] credential master_key (sym s.1)
            (append-nil header.slots ∙ sym s.2) opens in
        (
          ground (
            arith,
            read_header-Holds p codec faithful (restart (written k).1 n) sealed
                (write_header-Holds k n h),
            opened,
            mac,
            verify-seal p codec header sealed master_key mac_key mac seals,
            made,
          ),
          s.2,
        )
