-- ===== src/Crypto/Volume/Slots.antt =====
-- The key slots of src/crypto/volume.rs: each wraps the master key for one credential.
use pqfs.Common.{
  ℕ, ◌+◌, Bytes, List, [], ◌∷◌, Result, ok, err, Option, none, some, to_option, ◌>>=◌,
  no_slot_accepted,
}
use pqfs.Common.Exec
use pqfs.Common.Exec.{Exec}
use pqfs.Crypto.Primitives.{Primitives}
use pqfs.Crypto.Header.{KeySlot, KdfParams, VolumeHeader, salt_len}
use pqfs.Crypto.Keys.{derive_password_key, wrap_master_key, unwrap_master_key}
use pqfs.Crypto.Identity.{Identity, PublicIdentity, recover_kek, encapsulate}

pub data Unlock : Type 0 where
  password : Bytes → Unlock
  identity : Identity → Unlock

module _ (p : Primitives) where
  unfoldable pub try_slot : VolumeHeader → KeySlot → Unlock → Result (Option Bytes)
  try_slot header (KeySlot.password salt kdf wrapped) (Unlock.password word) = do
    kek ← derive_password_key p word salt kdf
    ok (to_option (unwrap_master_key p kek header.volume_id wrapped))
  try_slot header (KeySlot.recipient label param key ct wrapped) (Unlock.identity id) =
      elim (recover_kek p id ct) [
        | ok kek ↦ ok (to_option (unwrap_master_key p kek header.volume_id wrapped))
        | err e ↦ ok none
      ]
  try_slot header _ _ = ok none

  -- The loop over the slots that are left.
  unfoldable pub try_slots : VolumeHeader → List KeySlot → Unlock → Result Bytes
  try_slots header [] credential = err no_slot_accepted
  try_slots header (slot ∷ slots) credential = elim (try_slot header slot credential) [
    | err e ↦ err e
    | ok none ↦ try_slots header slots credential
    | ok (some master_key) ↦ ok master_key
  ]

  unfoldable pub open_master_key : VolumeHeader → Unlock → Result Bytes
  unfolding try_slots
  open_master_key header credential = try_slots header header.slots credential

  unfoldable pub recipient_slot : PublicIdentity → Bytes → Bytes → Bytes → Exec ℕ KeySlot
  recipient_slot recipient label volume_id master_key = Exec.◌>>=◌ (encapsulate p recipient) λ pair.
      Exec.◌>>=◌ (wrap_master_key p pair.1 volume_id master_key) λ wrapped.
        Exec.pure
          (KeySlot.recipient label recipient.kem_param recipient.kem_public_key pair.0 wrapped)

  unfoldable pub password_slot : Bytes → Bytes → Bytes → KdfParams → Exec ℕ KeySlot
  password_slot word volume_id master_key kdf =
      Exec.◌>>=◌ (λ draws. (ok (p.fill_bytes draws salt_len), draws + 1))
        λ salt. Exec.◌>>=◌ (Exec.lift (derive_password_key p word salt kdf)) λ kek.
          Exec.◌>>=◌ (wrap_master_key p kek volume_id master_key)
            λ wrapped. Exec.pure (KeySlot.password salt kdf wrapped)
