-- ===== src/Commands/Rewrapped.antt =====
-- What `rekey` of src/commands.rs does to the slots: each is made anew for the credential that it was for.
use pqfs.Common.{
  ℕ, zero, suc, ◌+◌, ◌≡◌, ap, sym, ◌∙◌, subst, Bytes, length, List, [], ◌∷◌, get_elem?, some,
  Result, ok, arith,
}
use pqfs.Common.After.{ok-injective}
use pqfs.Common.Exec.{and_then-eq-ok}
use pqfs.Crypto.Primitives.{Primitives, IsSound, IsKem}
use pqfs.Crypto.Header.{VolumeHeader, KeySlot}
use pqfs.Crypto.Identity.{public}
use pqfs.Crypto.Volume.Slots.{Unlock, try_slot}
use pqfs.Crypto.Volume.Opening.{try_slot-recipient_slot, try_slot-password_slot}
use pqfs.Commands.Credentials.{CredentialArgs, require_password}
use pqfs.Commands.Rekey.{slot_password, rewrap, rewrap_all}

-- The credential that a slot is for: the password of the command, or the identity whose public half it has.
abbrev pub IsFor : Primitives → CredentialArgs → KeySlot → Unlock → Type 0
IsFor p args (KeySlot.password salt kdf wrapped) (Unlock.password word) =
    require_password args ≡ ok word
IsFor p args (KeySlot.recipient name param key ct wrapped) (Unlock.identity id) =
    public p id ≡ ok (record { kem_param = param; kem_public_key = key })
IsFor p args (KeySlot.password salt kdf wrapped) (Unlock.identity id) = ⊥
IsFor p args (KeySlot.recipient name param key ct wrapped) (Unlock.password word) = ⊥

module _ (p : Primitives) (sound : IsSound p) (kem : IsKem p) (args : CredentialArgs)
    (header : VolumeHeader) (master_key : Bytes) (size : length master_key ≡ 32) where
  rewrap-opens :
      (slot slot' : KeySlot) (credential : Unlock) (index draws draws' : ℕ)
      → IsFor p args slot credential
      → rewrap p index args header.volume_id master_key slot draws ≡ (ok slot', draws')
      → try_slot p header slot' credential ≡ ok (some master_key)
  unfolding rewrap slot_password
  rewrap-opens (KeySlot.password salt kdf wrapped) slot' (Unlock.password word) index draws draws'
        fits h =
      try_slot-password_slot p sound word master_key kdf header slot' draws draws' size
        (ground (arith, h, fits))
  rewrap-opens (KeySlot.recipient name param key ct wrapped) slot' (Unlock.identity id) index draws
        draws' fits h =
      try_slot-recipient_slot p sound kem id (record { kem_param = param; kem_public_key = key })
        name master_key header slot' draws draws' size fits h
  rewrap-opens (KeySlot.password salt kdf wrapped) slot' (Unlock.identity id) index draws draws'
        fits h =
      absurd fits
  rewrap-opens (KeySlot.recipient name param key ct wrapped) slot' (Unlock.password word) index
        draws draws' fits h =
      absurd fits

  -- The first slot and the rest, of a run that succeeds.
  rewrap_first :
      (s : KeySlot) (slots slots' : List KeySlot) (index draws draws' : ℕ)
      → rewrap_all p index args header.volume_id master_key (s ∷ slots) draws ≡ (ok slots', draws')
      → (s' : KeySlot) × (more : List KeySlot) × (d : ℕ) × (d' : ℕ) × (rewrap p index args
            header.volume_id master_key s draws
          ≡ (ok s', d))
        × (rewrap_all p (index + 1) args header.volume_id master_key slots d ≡ (ok more, d'))
        × (slots' ≡ s' ∷ more)
  unfolding rewrap_all
  rewrap_first s slots slots' index draws draws' h =
      let (s', d, first, rest) =
        and_then-eq-ok (rewrap p index args header.volume_id master_key s draws) _ slots' draws'
          h in
      let (more, d', others, made) =
        and_then-eq-ok (rewrap_all p (index + 1) args header.volume_id master_key slots d) _ slots'
          draws' rest in
      let list : s' ∷ more ≡ slots' =
        ok-injective (ap (λ (r : Result (List KeySlot) × ℕ). r.0) made) in
      (s', more, d, d', first, others, sym list)

  -- With a sound cipher and key encapsulation, when `rekey` has made the slots anew under a master key of 32
  -- bytes: at the place of each slot there is one that opens, in any header of the volume, to the new master
  -- key for the credential that the old one is for, the password of the command or the identity whose public
  -- half the slot has.
  pub rewrap_all-opens :
      (slots slots' : List KeySlot) (j : ℕ) (slot : KeySlot) (credential : Unlock)
      (index draws draws' : ℕ)
      → get_elem? slots j ≡ some slot
      → IsFor p args slot credential
      → rewrap_all p index args header.volume_id master_key slots draws ≡ (ok slots', draws')
      → (slot' : KeySlot) × (get_elem? slots' j ≡ some slot')
        × (try_slot p header slot' credential ≡ ok (some master_key))
  unfolding rewrap_all
  rewrap_all-opens [] slots' j slot credential index draws draws' at fits h =
      absurd (ground (arith, at))
  rewrap_all-opens (s ∷ slots) slots' zero slot credential index draws draws' at fits h =
      let (s', more, d, d', first, others, made) =
        rewrap_first s slots slots' index draws draws' h in
      let same : s ≡ slot = ground (arith, at) in
      (
        s',
        ap (λ l. get_elem? l 0) made,
        rewrap-opens s s' credential index draws d
            (subst (λ x. IsFor p args x credential) (sym same) fits) first,
      )
  rewrap_all-opens (s ∷ slots) slots' (suc j) slot credential index draws draws' at fits h =
      let (s', more, d, d', first, others, made) =
        rewrap_first s slots slots' index draws draws' h in
      let (t, there, opens) =
        rewrap_all-opens slots more j slot credential (index + 1) d d' at fits others in
      (t, ap (λ l. get_elem? l (suc j)) made ∙ there, opens)
