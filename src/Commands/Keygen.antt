-- ===== src/Commands/Keygen.antt =====
-- The command `keygen` of src/commands.rs, and the files of src/crypto/identity.rs that it writes. They lie
-- outside of the backend.
use pqfs.Common.{
  ◌≡◌, Bytes, ◌++◌, ok, err, Option, some, bail_if, if◌then◌else◌, already_exists, unwritable,
}
use pqfs.Common.Exec.{Exec, ◌>>=◌, ◌>>◌, pure, lift, gets}
use pqfs.Crypto.Primitives.{Primitives}
use pqfs.Crypto.Keys.{ascii, same_bytes}
use pqfs.Crypto.Identity.{Identity, PublicIdentity, generate, public}
use pqfs.Crypto.Volume.Store.{with_draws}
use pqfs.Commands.Credentials.{World, on_backend, is_some}

-- `bincode` of a public identity.
pub record PublicCodec : Type 0 where
  pub serialize : PublicIdentity → Bytes
  pub deserialize : Bytes → Option PublicIdentity

-- What bincode promises.
pub record IsFaithful (codec : PublicCodec) : Type 0 where
  pub deserialize-serialize : (k : PublicIdentity) → codec.deserialize (codec.serialize k) ≡ some k

-- The system's answer to a write: it goes through, or it fails and leaves the file as it is or with these bytes.
pub data Answer : Type 0 where
  written untouched : Answer
  torn : Bytes → Answer

abbrev pub System : Type 0
System = Bytes → Bytes → Answer

unfoldable pub with_file : Bytes → Bytes → World → World
with_file path content w = record w {
  outside = λ q. if same_bytes q path then some content else w.outside q;
}

-- Create or truncate, and write.
unfoldable pub write_file : System → Bytes → Bytes → Exec World (Unit {0})
write_file system path content w = elim (system path content) [
  | Answer.written ↦ (ok tt, with_file path content w)
  | Answer.untouched ↦ (err unwritable, w)
  | Answer.torn left ↦ (err unwritable, with_file path left w)
]

-- `write_private`, whose mode is no part of the model.
unfoldable pub write_private : System → Bytes → Bytes → Exec World (Unit {0})
unfolding write_file
write_private system path content = write_file system path content

-- `Identity::save`
unfoldable pub save_identity : System → Identity → Bytes → Exec World (Unit {0})
unfolding write_private
save_identity system identity path = write_private system path identity.seed

-- `PublicIdentity::save`
unfoldable pub save_public : System → PublicCodec → PublicIdentity → Bytes → Exec World (Unit {0})
unfolding write_file
save_public system codec key path = write_file system path (codec.serialize key)

unfoldable pub public_path : Bytes → Bytes
public_path private = private ++ ascii ".pub"

-- The path of the public file, which is printed, is the result.
unfoldable pub keygen : Primitives → System → PublicCodec → Bytes → Exec World Bytes
keygen p system codec out = do
  taken ← gets (λ w. is_some (w.outside out))
  lift (bail_if taken already_exists)
  identity ← on_backend (with_draws (generate p))
  save_identity system identity out
  key ← lift (public p identity)
  save_public system codec key (public_path out)
  pure (public_path out)
