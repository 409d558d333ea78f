-- ===== src/Commands/Credentials.antt =====
-- The credentials of src/cli.rs. The world of a command is its backend, the files outside of it by their
-- path, and the lines that the user types at password prompts, of which a run without a terminal has none.
use pqfs.Common.{
  ℕ, Bytes, List, [], ◌∷◌, Result, ok, err, Option, none, some, Bool, true, false, ok_or,
  if◌then◌else◌, ◌||◌, password_required, missing_file,
}
use pqfs.Common
use pqfs.Common.Exec.{Exec, ◌>>=◌, pure}
use pqfs.Backend.{Backend}
use pqfs.Crypto.Identity.{Identity, load}
use pqfs.Crypto.Volume.Slots.{Unlock}

pub record World : Type 0 where
  pub backend : Backend
  pub outside : Bytes → Option Bytes
  pub answers : List Bytes

-- A computation on the backend alone.
abbrev pub on_backend : {A : Type 0} → Exec Backend A → Exec World A
on_backend m w = let (r, b) = m w.backend in (r, record w { backend = b })

pub record CredentialArgs : Type 0 where
  pub password : Option Bytes
  -- the path of an identity file
  pub identity : Option Bytes

answer : List Bytes → World → Result Bytes × World
answer [] w = (err password_required, w)
answer (line ∷ lines) w = (ok line, record w { answers = lines })

unfoldable pub prompt_password : Exec World Bytes
unfolding answer
prompt_password w = answer w.answers w

-- `password.as_ref().is_some_and(|pw| !pw.is_empty())`
unfoldable pub has_password : Option Bytes → Bool
has_password none = false
has_password (some []) = false
has_password (some (b ∷ bs)) = true

unfoldable pub is_some {ℓ} : {A : Type ℓ} → Option A → Bool
is_some none = false
is_some (some a) = true

unfoldable pub resolve : CredentialArgs → Exec World CredentialArgs
unfolding has_password is_some
resolve args w =
    if is_some args.identity || has_password args.password
    then (ok args, w)
    else (do word ← prompt_password; pure (record args { password = some word })) w

-- `Identity::load` of the file that was named, if one was.
unfoldable pub identity_file : CredentialArgs → Exec World (Option Identity)
identity_file args w = (
  elim args.identity [
    | none ↦ ok none
    | some path ↦
        Common.◌>>=◌ (ok_or (w.outside path) missing_file)
          λ bytes. Common.◌>>=◌ (load bytes) λ id. ok (some id)
  ],
  w,
)

unfoldable pub require_password : CredentialArgs → Result Bytes
unfolding has_password
require_password args =
    if has_password args.password
    then ok_or args.password password_required
    else err password_required

unfoldable pub unlock : CredentialArgs → Option Identity → Result Unlock
unlock args none = Common.◌>>=◌ (require_password args) λ word. ok (Unlock.password word)
unlock args (some id) = ok (Unlock.identity id)
