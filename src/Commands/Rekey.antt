-- ===== src/Commands/Rekey.antt =====
-- The command `rekey` of src/commands.rs: a new master key, every slot wrapped anew, the index
-- re-encrypted, and the pair swapped in.
use pqfs.Common.{ℕ, ◌+◌, Bytes, length, List, [], ◌∷◌, Result, ok, err, Option, pass_the_password}
use pqfs.Common.Exec.{Exec, ◌>>=◌, pure, lift}
use pqfs.Crypto.Primitives.{Primitives}
use pqfs.Crypto.Header.{KeySlot, VolumeHeader}
use pqfs.Crypto.Keys.{HeaderCodec, random_key, from_master_key}
use pqfs.Crypto.Volume.Slots.{recipient_slot, password_slot}
use pqfs.Crypto.Volume.Store as Store
use pqfs.Crypto.Volume.Store.{read_header, commit_rekey, with_draws}
use pqfs.Index.Persist.{IndexCodec, rekey_index}
use pqfs.Commands.Credentials.{
  World, CredentialArgs, on_backend, resolve, identity_file, unlock, require_password,
}
use pqfs.Common

-- The password for a password slot, or the slot's own error.
unfoldable pub slot_password : ℕ → CredentialArgs → Result Bytes
slot_password index args = Common.or_fail (pass_the_password index) (require_password args)

module _ (p : Primitives) where
  -- One slot under the new master key.
  unfoldable pub rewrap : ℕ → CredentialArgs → Bytes → Bytes → KeySlot → Exec ℕ KeySlot
  unfolding slot_password
  rewrap index args volume_id master_key (KeySlot.password salt kdf wrapped) = do
    word ← lift (slot_password index args)
    password_slot p word volume_id master_key kdf
  rewrap index args volume_id master_key (KeySlot.recipient label param key ct wrapped) =
      recipient_slot p (record { kem_param = param; kem_public_key = key }) label volume_id
        master_key

  -- The loop over the slots, from slot `index` on.
  unfoldable pub rewrap_all :
      ℕ → CredentialArgs → Bytes → Bytes → List KeySlot → Exec ℕ (List KeySlot)
  rewrap_all index args volume_id master_key [] = pure []
  rewrap_all index args volume_id master_key (slot ∷ slots) = do
    slot' ← rewrap index args volume_id master_key slot
    slots' ← rewrap_all (index + 1) args volume_id master_key slots
    pure (slot' ∷ slots')

  -- The count of slots is the result.
  unfoldable pub rekey : HeaderCodec → IndexCodec → CredentialArgs → Exec World ℕ
  rekey codec index_codec args = do
    credential ← resolve args
    identity ← identity_file credential
    word ← lift (unlock credential identity)
    old ← on_backend (Store.unlock p codec word)
    header ← on_backend (read_header p codec)
    new_master_key ← on_backend (with_draws (random_key p))
    slots ←
        on_backend
          (with_draws (rewrap_all 0 credential header.volume_id new_master_key header.slots))
    let header' : VolumeHeader = record header { slots = slots }
    new ← lift (from_master_key p new_master_key header')
    index ← on_backend (rekey_index p index_codec old new)
    _ ← on_backend (commit_rekey p codec header' new_master_key index)
    pure (length slots)
