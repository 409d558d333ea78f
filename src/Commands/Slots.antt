-- ===== src/Commands/Slots.antt =====
-- The commands `slots`, `share`, `revoke` and `passwd` of src/commands.rs. Their results are what they
-- print; a share's label is given (the code takes the stem of the file name where none is).
use pqfs.Common.{
  ℕ, zero, suc, ◌+◌, ◌-◌, Bytes, length, List, [], ◌∷◌, ◌++◌, Result, ok, err, Option, none, some,
  Bool, true, false, ok_or, bail_if, ltb, leb, ◌==◌, not, if◌then◌else◌, map, no_such_slot,
  only_slot, passwords_differ, empty_password, missing_file, header_parse,
}
use pqfs.Common
use pqfs.Common.Exec.{Exec, ◌>>=◌, ◌>>◌, pure, lift}
use pqfs.Crypto.Primitives.{Primitives}
use pqfs.Crypto.Header.{KeySlot, KdfParams, VolumeHeader, SlotKind, kind, label, default_kdf}
use pqfs.Crypto.Keys.{HeaderCodec, same_bytes}
use pqfs.Crypto.Identity.{PublicIdentity}
use pqfs.Crypto.Volume.Slots.{open_master_key, recipient_slot, password_slot}
use pqfs.Crypto.Volume.Store.{read_header, write_header, with_draws}
use pqfs.Commands.Credentials.{
  World, CredentialArgs, on_backend, resolve, identity_file, unlock, prompt_password,
}

-- `Vec::remove`, of an index in range
unfoldable pub remove_at {ℓ} : {A : Type ℓ} → ℕ → List A → List A
remove_at i [] = []
remove_at zero (x ∷ xs) = xs
remove_at (suc i) (x ∷ xs) = x ∷ remove_at i xs

unfoldable pub slot_kind : List KeySlot → ℕ → Option SlotKind
slot_kind [] i = none
slot_kind (s ∷ slots) zero = some (kind s)
slot_kind (s ∷ slots) (suc i) = slot_kind slots i

-- The parameters of the first password slot, or the default ones.
unfoldable pub first_kdf : List KeySlot → KdfParams
first_kdf [] = default_kdf
first_kdf (KeySlot.password salt kdf wrapped ∷ slots) = kdf
first_kdf (KeySlot.recipient name param key ct wrapped ∷ slots) = first_kdf slots

-- The first password slot is replaced; where there is none, the slot is added at the end.
unfoldable pub put_password_slot : KeySlot → List KeySlot → List KeySlot
put_password_slot slot [] = slot ∷ []
put_password_slot slot (KeySlot.password salt kdf wrapped ∷ slots) = slot ∷ slots
put_password_slot slot (KeySlot.recipient name param key ct wrapped ∷ slots) =
    KeySlot.recipient name param key ct wrapped ∷ put_password_slot slot slots

-- What `slots` prints of each slot.
unfoldable pub listing : List KeySlot → List (SlotKind × Bytes)
listing = map (λ s. (kind s, label s))

-- `PublicIdentity::load` reads with `bincode::deserialize`, a parameter.
unfoldable pub load_public : (Bytes → Option PublicIdentity) → Bytes → Exec World PublicIdentity
load_public decode path w = (
  Common.◌>>=◌ (ok_or (w.outside path) missing_file) (λ bytes. ok_or (decode bytes) header_parse),
  w,
)

module _ (p : Primitives) (codec : HeaderCodec) where
  unfoldable pub slots : Exec World (List (SlotKind × Bytes))
  unfolding listing
  slots = do header ← on_backend (read_header p codec); pure (listing header.slots)

  -- The header and the master key that the credentials open. The header's MAC is not verified here.
  unfoldable pub open_volume : CredentialArgs → Exec World (VolumeHeader × Bytes)
  open_volume credential = do
    identity ← identity_file credential
    header ← on_backend (read_header p codec)
    word ← lift (unlock credential identity)
    master_key ← lift (open_master_key p header word)
    pure (header, master_key)

  -- The slot's index is the result.
  unfoldable pub share :
      (Bytes → Option PublicIdentity) → Bytes → Bytes → CredentialArgs → Exec World ℕ
  share decode to name args = do
    credential ← resolve args
    recipient ← load_public decode to
    opened ← open_volume credential
    slot ← on_backend (with_draws (recipient_slot p recipient name (opened.0).volume_id opened.1))
    let header : VolumeHeader = record (opened.0) { slots = (opened.0).slots ++ slot ∷ [] }
    written ← on_backend (write_header p codec header opened.1)
    pure (length written.slots - 1)

  -- The removed slot's kind is the result.
  unfoldable pub revoke : ℕ → CredentialArgs → Exec World (Option SlotKind)
  revoke slot args = do
    credential ← resolve args
    opened ← open_volume credential
    lift (bail_if (leb (length (opened.0).slots) slot) no_such_slot)
    lift (bail_if (length (opened.0).slots == 1) only_slot)
    let header : VolumeHeader = record (opened.0) { slots = remove_at slot (opened.0).slots }
    written ← on_backend (write_header p codec header opened.1)
    pure (slot_kind (opened.0).slots slot)

  unfoldable pub passwd : CredentialArgs → Exec World (Unit {0})
  passwd args = do
    credential ← resolve args
    opened ← open_volume credential
    new_password ← prompt_password
    repeated ← prompt_password
    lift (bail_if (not (same_bytes new_password repeated)) passwords_differ)
    lift (bail_if (length new_password == 0) empty_password)
    slot ← on_backend (
        with_draws
          (password_slot p new_password (opened.0).volume_id opened.1 (first_kdf (opened.0).slots)))
    let header : VolumeHeader = record (opened.0) {
      slots = put_password_slot slot (opened.0).slots;
    }
    written ← on_backend (write_header p codec header opened.1)
    pure tt
