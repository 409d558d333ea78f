-- ===== src/Commands/Revoke.antt =====
-- `revoke` on every branch, and what it does to a header that does not verify.
use pqfs.Common.{
  if◌then◌else◌, ◌||◌, get_elem?, ltb, Bool, Option, ◌∙◌, false, refl, Bool-cases, inl, inr, ℕ,
  zero, suc, ◌+◌, ◌≤◌, ◌<◌, ◌≡◌, ap, Bytes, length, List, [], ◌∷◌, Result, ok, err, arith, true,
  leb, ◌==◌, no_such_slot, only_slot, header_modified,
}
use pqfs.Backend.{Backend}
use pqfs.Crypto.Primitives.{Primitives}
use pqfs.Crypto.Header.{KeySlot, VolumeHeader, SlotKind, max_header_bytes}
use pqfs.Crypto.Keys.{
  HeaderCodec, IsFaithful, Crypto, derive_header_mac_key, verify_header_mac, from_master_key,
}
use pqfs.Crypto.Volume.Slots.{Unlock, open_master_key}
use pqfs.Crypto.Volume.Store.{seal_header, read_header, write_header, unlock}
use pqfs.Crypto.Volume.Crash.{restart}
use pqfs.Crypto.Volume.Reopen.{Holds, read_header-Holds}
use pqfs.Crypto.Volume.Rewrite.{
  unlock-write_header, write_header-ok, write_header-Holds, sealed_fields,
}
use pqfs.Commands.Credentials.{World, CredentialArgs, resolve}
use pqfs.Commands.Slots.{remove_at, slot_kind, open_volume, revoke}

length-remove_at {ℓ} :
    {A : Type ℓ} (i : ℕ) (xs : List A) → i < length xs → length (remove_at i xs) + 1 ≡ length xs
unfolding remove_at
length-remove_at i [] h = elim h [ ]
length-remove_at zero (x ∷ xs) h = omega arith
length-remove_at (suc i) (x ∷ xs) h = omega (arith, length-remove_at i xs)

-- The elements behind the one that was removed move up by one.
get_elem?-remove_at {ℓ} :
    {A : Type ℓ} (i : ℕ) (xs : List A) (j : ℕ)
    → i < length xs
    → get_elem? (remove_at i xs) j ≡ (if ltb j i then get_elem? xs j else get_elem? xs (suc j))
unfolding remove_at
get_elem?-remove_at i [] j h = elim h [ ]
get_elem?-remove_at zero (x ∷ xs) j h = ground arith
get_elem?-remove_at (suc i) (x ∷ xs) zero h = ground arith
get_elem?-remove_at (suc i) (x ∷ xs) (suc j) h =
    ground (arith, get_elem?-remove_at i xs j (omega (arith, h)))

module _ (p : Primitives) (codec : HeaderCodec) (args credential : CredentialArgs) (w w₀ w₁ : World)
    (header : VolumeHeader) (master_key : Bytes) (resolved : resolve args w ≡ (ok credential, w₀))
    (opened : open_volume p codec credential w₀ ≡ (ok (header, master_key), w₁)) where
  abbrev without : ℕ → VolumeHeader
  without slot = record header { slots = remove_at slot header.slots }

  revoke_refused :
      (slot : ℕ)
      → (leb (length header.slots) slot || length header.slots == 1) ≡ true
      → revoke p codec slot args w
        ≡ (err (if leb (length header.slots) slot then no_such_slot else only_slot), w₁)
  unfolding revoke
  revoke_refused slot h = rw (resolved, opened) (ground arith)

  revoke_removes :
      (slot : ℕ) (sealed : VolumeHeader) (b : Backend)
      → slot < length header.slots
      → 1 < length header.slots
      → write_header p codec (without slot) master_key w₁.backend ≡ (ok sealed, b)
      → (revoke p codec slot args w ≡ (ok (slot_kind header.slots slot), record w₁ { backend = b }))
        × (length (without slot).slots + 1 ≡ length header.slots)
        × (0 < length (without slot).slots)
  unfolding revoke
  revoke_removes slot sealed b inside two wrote =
      let less = length-remove_at slot header.slots inside in
      (rw (resolved, opened) (ground (arith, wrote)), less, omega (arith, less))

  -- The slot is not there, or it is the only one.
  abbrev pub is_kept : ℕ → Bool
  is_kept slot = leb (length header.slots) slot || length header.slots == 1

  -- The header has the slots of the volume without this one, in their order, unless it is kept; none is left only
  -- if there was none.
  pub record IsRevoked (slot : ℕ) (left : VolumeHeader) : Type 0 where
    pub slots :
        (j : ℕ)
        → get_elem? left.slots j ≡ (
            if is_kept slot || ltb j slot
            then get_elem? header.slots j
            else get_elem? header.slots (suc j))
    pub count : length left.slots + (if is_kept slot then 0 else 1) ≡ length header.slots
    pub openable : (length left.slots == 0) ≡ (length header.slots == 0)

  -- What `revoke` of a slot answers, and the header that the next command then reads.
  abbrev pub Revokes : ℕ → VolumeHeader → ℕ → Result (Option SlotKind) × World → Type 0
  Revokes slot left n ran =
      (ran.0 ≡ (
        if leb (length header.slots) slot
        then err no_such_slot
        else if length header.slots == 1
        then err only_slot
        else ok (slot_kind header.slots slot)))
      × (read_header p codec (restart ran.1.backend n) ≡ (ok left, restart ran.1.backend n))
      × IsRevoked slot left

  module _ (faithful : IsFaithful codec) (slot : ℕ) (sealed : VolumeHeader) (n : ℕ)
      (holds : Holds p codec faithful w₁.backend header)
      (seals : seal_header p codec (without slot) master_key ≡ ok sealed)
      (small : length (codec.serialize sealed) ≤ max_header_bytes)
      (power : 3 ≤ w₁.backend.power) where
    kept : is_kept slot ≡ true → Revokes slot header n (revoke p codec slot args w)
    kept stop = rw (revoke_refused slot stop) (
      ground (arith, stop),
      read_header-Holds p codec faithful (restart w₁.backend n) header (record {
        unmarked = holds.unmarked;
        on_disk = holds.on_disk;
        version = holds.version;
        small = holds.small;
      }),
      record { slots = λ j. ground (arith, stop); count = ground (arith, stop); openable = refl },
    )

    removed : is_kept slot ≡ false → Revokes slot sealed n (revoke p codec slot args w)
    removed go =
        let write = write_header p codec (without slot) master_key w₁.backend in
        let wrote : write ≡ (ok sealed, write.1) =
          ap (λ (r : Result VolumeHeader). (r, write.1))
            (write_header-ok p codec faithful (without slot) sealed master_key w₁.backend seals
              holds.version small holds.unmarked w₁.backend.power power) in
        let inside : slot < length header.slots = ground (arith, go) in
        let two : 1 < length header.slots = ground (arith, go) in
        let run = revoke_removes slot sealed write.1 inside two wrote in
        let fields =
          sealed_fields p codec faithful (without slot) sealed master_key w₁.backend seals
            holds.version small holds.unmarked in
        rw run.0 (
          ground (arith, go),
          read_header-Holds p codec faithful (restart write.1 n) sealed (
              write_header-Holds p codec faithful (without slot) sealed master_key w₁.backend seals
                holds.version small holds.unmarked w₁.backend.power n power),
          record {
            slots = λ j.
                ap (λ (s : List KeySlot). get_elem? s j) fields.2
                ∙ get_elem?-remove_at slot header.slots j inside
                ∙ ground (arith, go);
            count = rw go (ap (λ (s : List KeySlot). length s + 1) fields.2 ∙ run.1);
            openable =
                ap (λ (s : List KeySlot). length s == 0) fields.2 ∙ ground (arith, run.2, two);
          },
        )

    -- With the volume open, on a backend that holds its header, where the header without the slot seals within
    -- the size limit and 3 changes can be made: `revoke` answers that there is no such slot, or that it is the
    -- only one, or else gives the kind of the slot. If it refuses, the next command reads the header as it
    -- was. If not, it reads a header with the other slots in their order, one less, so at least one.
    pub revoke-IsRevoked :
        Revokes slot (if is_kept slot then header else sealed) n (revoke p codec slot args w)
    revoke-IsRevoked = elim (Bool-cases (is_kept slot)) [
      | inl stop ↦ rw stop (kept stop)
      | inr go ↦ rw go (removed go)
    ]

  -- Take a header on disk that was modified, so that its MAC does not verify, that has several slots, and a
  -- credential that opens it both with and without one of them. `unlock` refuses the header. `revoke` of that
  -- slot, if it can make its 3 changes and the keys derive, writes the rest under a valid MAC, and then the
  -- credential unlocks the volume.
  pub revoke_reseals :
      (faithful : IsFaithful codec) (slot : ℕ) (sealed : VolumeHeader) (other : Unlock)
      (mac_key : Bytes) (this : Crypto) (n : ℕ)
      → Holds p codec faithful w₁.backend header
      → derive_header_mac_key p master_key ≡ ok mac_key
      → verify_header_mac p codec mac_key header ≡ err header_modified
      → open_master_key p header other ≡ ok master_key
      → slot < length header.slots
      → 1 < length header.slots
      → open_master_key p (without slot) other ≡ ok master_key
      → seal_header p codec (without slot) master_key ≡ ok sealed
      → length (codec.serialize sealed) ≤ max_header_bytes
      → from_master_key p master_key sealed ≡ ok this
      → 3 ≤ w₁.backend.power
      → (unlock p codec other w₁.backend ≡ (err header_modified, w₁.backend))
        × let left = restart (revoke p codec slot args w).1.backend n in
          (unlock p codec other left ≡ (ok this, left))
  unfolding unlock
  revoke_reseals faithful slot sealed other mac_key this n holds mac refused opens inside two opens'
        seals small made power =
      let write = write_header p codec (without slot) master_key w₁.backend in
      let wrote : write ≡ (ok sealed, write.1) =
        ap (λ (r : Result VolumeHeader). (r, write.1))
          (write_header-ok p codec faithful (without slot) sealed master_key w₁.backend seals
            holds.version small holds.unmarked w₁.backend.power power) in
      let run : revoke p codec slot args w
          ≡ (ok (slot_kind header.slots slot), record w₁ { backend = write.1 }) =
        (revoke_removes slot sealed write.1 inside two wrote).0 in
      (
        ground (
          arith,
          read_header-Holds p codec faithful w₁.backend header holds,
          opens,
          mac,
          refused,
        ),
        rw run (
            (unlock-write_header p codec faithful (without slot) sealed master_key w₁.backend seals
              holds.version small holds.unmarked other mac_key this w₁.backend.power n power mac
              opens' made).0),
      )
