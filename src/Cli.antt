-- ===== src/Cli.antt =====
-- src/cli.rs and src/main.rs: the arguments of the commands, and what `main` does with each. clap, which
-- parses them, and the logging are left out, and so is the session with the kernel that `mount` ends in. A
-- command works on the backend of its world, which is the directory that its arguments name.
use pqfs.Common.{
  ℕ, Bytes, List, [], ◌∷◌, ◌++◌, Bool, false, Option, none, some, if◌then◌else◌, ◌||◌,
}
use pqfs.Common.Exec.{Exec, ◌>>=◌, pure}
use pqfs.Crypto.Primitives.{Primitives}
use pqfs.Crypto.Header.{SlotKind}
use pqfs.Crypto.Keys.{Crypto, HeaderCodec, ascii, same_bytes}
use pqfs.Commands.Credentials.{World, CredentialArgs, resolve}
use pqfs.Commands.Keygen
use pqfs.Commands.Keygen.{PublicCodec, System}
use pqfs.Commands.Slots
use pqfs.Commands.Rekey
use pqfs.Index.Persist.{IndexCodec}
use pqfs.Ops.Tree.{Caller}
use pqfs.Wrapper.State.{Pqfs}
use pqfs.Wrapper.Requests

pub record PasswdArgs : Type 0 where
  pub backend : Bytes
  pub credential : CredentialArgs

pub record KeygenArgs : Type 0 where
  pub out : Bytes

pub record VolumeArgs : Type 0 where
  pub backend : Bytes

pub record ShareArgs : Type 0 where
  pub backend : Bytes
  pub to : Bytes
  pub label : Option Bytes
  pub credential : CredentialArgs

pub record RevokeArgs : Type 0 where
  pub backend : Bytes
  pub slot : ℕ
  pub credential : CredentialArgs

pub record MountArgs : Type 0 where
  pub backend : Bytes
  pub mountpoint : Bytes
  pub credential : CredentialArgs
  pub init : Bool
  pub options : List Bytes

pub data Command : Type 0 where
  mount : MountArgs → Command
  keygen : KeygenArgs → Command
  slots : VolumeArgs → Command
  share : ShareArgs → Command
  revoke : RevokeArgs → Command
  passwd rekey : PasswdArgs → Command

-- `fuser::MountOption`, of which the file system sets these.
pub data MountOption : Type 0 where
  fs_name subtype custom : Bytes → MountOption
  no_atime ro rw : MountOption

unfoldable pub is_listed : Bytes → List Bytes → Bool
is_listed word [] = false
is_listed word (o ∷ options) = same_bytes o word || is_listed word options

-- The loop over the options that are neither `ro` nor `rw`.
unfoldable pub custom_options : List Bytes → List MountOption
custom_options [] = []
custom_options (o ∷ options) =
    let rest = custom_options options in
    if same_bytes o (ascii "ro") || same_bytes o (ascii "rw")
    then rest
    else MountOption.custom o ∷ rest

-- The options that `Pqfs::mount` hands to the kernel.
unfoldable pub mount_options : List Bytes → List MountOption
mount_options options =
    (MountOption.fs_name (ascii "pqfs")
      ∷ MountOption.subtype (ascii "pqfs")
      ∷ MountOption.no_atime
      ∷ (if is_listed (ascii "ro") options then MountOption.ro else MountOption.rw)
      ∷ [])
    ++ custom_options options

-- The label of a new slot, or else the stem of the recipient's file, by `Path::file_stem`.
unfoldable pub share_label : (Bytes → Option Bytes) → ShareArgs → Bytes
share_label file_stem args = elim args.label [
  | some label ↦ label
  | none ↦ elim (file_stem args.to) [ some stem ↦ stem | none ↦ [] ]
]

-- What a command returns or prints.
pub data Outcome : Type 0 where
  mounted : Crypto → Pqfs → List MountOption → Outcome
  issued : Bytes → Outcome
  listed : List (SlotKind × Bytes) → Outcome
  shared : ℕ → Outcome
  revoked : Option SlotKind → Outcome
  rewrapped : Outcome
  rekeyed : ℕ → Outcome

-- `main`
unfoldable pub run :
    Primitives
    → HeaderCodec
    → IndexCodec
    → PublicCodec
    → System
    → (Bytes → Option Bytes)
    → Caller
    → Option ℕ
    → Command
    → Exec World Outcome
run p codec index_codec publics system file_stem caller parallelism (Command.mount args) = do
  credential ← resolve args.credential
  opened ← Requests.mount p codec index_codec caller parallelism args.init credential
  pure (Outcome.mounted opened.0 opened.1 (mount_options args.options))
run p codec index_codec publics system file_stem caller parallelism (Command.keygen args) = do
  path ← Keygen.keygen p system publics args.out
  pure (Outcome.issued path)
run p codec index_codec publics system file_stem caller parallelism (Command.slots args) = do
  rows ← Slots.slots p codec
  pure (Outcome.listed rows)
run p codec index_codec publics system file_stem caller parallelism (Command.share args) = do
  place ←
      Slots.share p codec publics.deserialize args.to (share_label file_stem args) args.credential
  pure (Outcome.shared place)
run p codec index_codec publics system file_stem caller parallelism (Command.revoke args) = do
  kind ← Slots.revoke p codec args.slot args.credential
  pure (Outcome.revoked kind)
run p codec index_codec publics system file_stem caller parallelism (Command.passwd args) = do
  _ ← Slots.passwd p codec args.credential
  pure Outcome.rewrapped
run p codec index_codec publics system file_stem caller parallelism (Command.rekey args) = do
  count ← Rekey.rekey p codec index_codec args.credential
  pure (Outcome.rekeyed count)
