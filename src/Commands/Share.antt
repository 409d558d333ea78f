-- ===== src/Commands/Share.antt =====
-- `share` of src/commands.rs: whoever has the identity, and whoever could open the volume before, can open it.
use pqfs.Common.{
  ℕ, ◌-◌, ◌≤◌, ◌≡◌, refl, ap, ◌∙◌, Bytes, length, length-append, List, [], ◌∷◌, ◌++◌, Option,
  Result, ok, err, some, none, arith, no_slot_accepted, Option-cases, inl, inr, to_option,
}
use pqfs.Backend.{Backend, rekey_marker}
use pqfs.Crypto.Primitives.{Primitives, IsSound, IsKem}
use pqfs.Crypto.Header.{VolumeHeader, KeySlot, header_version, max_header_bytes}
use pqfs.Crypto.Keys.{
  HeaderCodec, IsFaithful, Crypto, derive_header_mac_key, from_master_key, unwrap_master_key,
}
use pqfs.Crypto.Identity.{Identity, PublicIdentity, public, recover_kek}
use pqfs.Crypto.Volume.Slots.{Unlock, try_slot, try_slots, open_master_key, recipient_slot}
use pqfs.Crypto.Volume.Opening.{try_slot-recipient_slot}
use pqfs.Crypto.Volume.Store.{seal_header, write_header, unlock}
use pqfs.Crypto.Volume.Crash.{restart}
use pqfs.Crypto.Volume.Reopen.{open_master_key-append, try_slots_by_id}
use pqfs.Crypto.Volume.Rewrite.{unlock-write_header, write_header-ok}
use pqfs.Commands.Credentials.{World, CredentialArgs, resolve}
use pqfs.Commands.Slots.{load_public, open_volume, share}

-- For an identity a slot gives the master key or nothing, never an error.
try_slot_identity :
    (p : Primitives) (header : VolumeHeader) (slot : KeySlot) (id : Identity)
    → (o : Option Bytes) × (try_slot p header slot (Unlock.identity id) ≡ ok o)
unfolding try_slot
try_slot_identity p header (KeySlot.password salt kdf wrapped) id = (none, refl)
try_slot_identity p header (KeySlot.recipient name param key ct wrapped) id =
    go (recover_kek p id ct)
  where
    go :
        (r : Result Bytes)
        → (o : Option Bytes) × (elim r [
          | ok kek ↦ ok (to_option (unwrap_master_key p kek header.volume_id wrapped))
          | err e ↦ ok none
        ]
            ≡ ok o)
    go (ok kek) = (to_option (unwrap_master_key p kek header.volume_id wrapped), refl)
    go (err e) = (none, refl)

-- An identity that no slot accepts opens the slot that comes behind.
try_slots_last :
    (p : Primitives) (header : VolumeHeader) (slots : List KeySlot) (slot : KeySlot) (id : Identity)
    (master_key : Bytes)
    → try_slots p header slots (Unlock.identity id) ≡ err no_slot_accepted
    → try_slot p header slot (Unlock.identity id) ≡ ok (some master_key)
    → try_slots p header (slots ++ slot ∷ []) (Unlock.identity id) ≡ ok master_key
unfolding try_slots
try_slots_last p header [] slot id master_key refused opens = ground (arith, opens)
try_slots_last p header (s ∷ slots) slot id master_key refused opens =
    let (o, this) = try_slot_identity p header s id in
    elim (Option-cases o) [
      | inl nothing ↦
          let rest : try_slots p header slots (Unlock.identity id) ≡ err no_slot_accepted =
            ground (arith, refused, this, nothing) in
          ground (arith, this, nothing, try_slots_last p header slots slot id master_key rest opens)
      | inr (key, some_key) ↦ absurd (ground (arith, refused, this, some_key))
    ]

module _ (p : Primitives) (sound : IsSound p) (kem : IsKem p) (codec : HeaderCodec)
    (faithful : IsFaithful codec) where
  -- With a sound cipher and key encapsulation, a codec of headers that reads back what it writes, the volume
  -- open under a master key of 32 bytes, with a header of this version and no rekey marker, and the
  -- recipient's file read: if `share` can make the slot, seal the header within the size limit, make its 3
  -- changes, and the volume's keys derive, it returns the place of the new slot, and afterwards the
  -- recipient's identity, which no slot accepted, unlocks the volume, as does every credential that opened
  -- it before.
  pub share-unlocks :
      (decode : Bytes → Option PublicIdentity) (to name : Bytes) (args credential : CredentialArgs)
      (w w₀ w₁ : World) (recipient : PublicIdentity) (id : Identity) (other : Unlock)
      (header sealed : VolumeHeader) (master_key mac_key : Bytes) (slot : KeySlot) (draws n : ℕ)
      (this : Crypto)
      → resolve args w ≡ (ok credential, w₀)
      → load_public decode to w₀ ≡ (ok recipient, w₀)
      → open_volume p codec credential w₀ ≡ (ok (header, master_key), w₁)
      → recipient_slot p recipient name header.volume_id master_key (w₁.backend).draws
        ≡ (ok slot, draws)
      → public p id ≡ ok recipient
      → open_master_key p header (Unlock.identity id) ≡ err no_slot_accepted
      → open_master_key p header other ≡ ok master_key
      → length master_key ≡ 32
      → header.version ≡ header_version
      → (w₁.backend).files rekey_marker ≡ none
      → seal_header p codec (record header { slots = header.slots ++ slot ∷ [] }) master_key
        ≡ ok sealed
      → length (codec.serialize sealed) ≤ max_header_bytes
      → derive_header_mac_key p master_key ≡ ok mac_key
      → from_master_key p master_key sealed ≡ ok this
      → 3 ≤ (w₁.backend).power
      → let r = share p codec decode to name args w in
        let left = restart r.1.backend n in
        (r.0 ≡ ok (length header.slots))
        × (unlock p codec (Unlock.identity id) left ≡ (ok this, left))
        × (unlock p codec other left ≡ (ok this, left))
  unfolding share open_master_key
  share-unlocks decode to name args credential w w₀ w₁ recipient id other header sealed master_key
        mac_key slot draws n this resolved loaded opened made own refused opens size version
        unmarked seals small mac keys power =
      let header' : VolumeHeader = record header { slots = header.slots ++ slot ∷ [] } in
      let b : Backend = record (w₁.backend) { draws = draws } in
      let write = write_header p codec header' master_key b in
      let wrote : write ≡ (ok sealed, write.1) =
        ap (λ (r : Result VolumeHeader). (r, write.1))
          (write_header-ok p codec faithful header' sealed master_key b seals version small unmarked
            b.power power) in
      let new : open_master_key p header' (Unlock.identity id) ≡ ok master_key =
        try_slots_last p header' header.slots slot id master_key
          (try_slots_by_id p codec faithful header' header header.slots (Unlock.identity id) refl
            ∙ refused)
          (try_slot-recipient_slot p sound kem id recipient name master_key header' slot
            (w₁.backend).draws draws size own made) in
      let old : open_master_key p header' other ≡ ok master_key =
        open_master_key-append p codec faithful header header' (slot ∷ []) other master_key refl
          refl opens in
      let after = λ (c : Unlock) (o : open_master_key p header' c ≡ ok master_key).
        unlock-write_header p codec faithful header' sealed master_key b seals version small
          unmarked c mac_key this b.power n power mac o keys in
      let run : share p codec decode to name args w
          ≡ (ok (length sealed.slots - 1), record w₁ { backend = write.1 }) =
        rw (resolved, loaded, opened, made, wrote) refl in
      let places = ap length (after other old).1 in
      let last : length sealed.slots - 1 ≡ length header.slots =
        omega (arith, places, length-append header.slots (slot ∷ [])) in
      rw run (ap (λ k. ok k) last, (after (Unlock.identity id) new).0, (after other old).0)
