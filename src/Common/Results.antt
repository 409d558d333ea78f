-- ===== src/Common/Results.antt =====
-- `anyhow::Result`: a value, or the reason that the code gives for its failure.
use Prim.Native.Nat.{ℕ}
use mathlib.Core.Bool.{Bool, true, false}
use mathlib.Core.Option.{Option, none, some}

-- One constructor for each message of a `bail!`, a `context` or a mapped error.
pub data Error : Type 0 where
  -- crypto
  invalid_key_length ciphertext_too_short encryption_failed decryption_failed : Error
  not_utf8 invalid_salt_length invalid_kdf derivation_failed wrong_key_length : Error
  header_modified : Error
  -- identities
  invalid_seed invalid_kem_ciphertext wrong_kem_param invalid_public_key not_an_identity : Error
  -- files of the backend
  missing_file short_read crashed : Error
  -- files outside of it
  unwritable : Error
  -- the errno codes that a handler replies
  enoent eexist enotdir eisdir enotempty einval eio : Error
  -- volumes
  volume_exists no_volume header_too_large header_parse header_version : Error
  no_slot_accepted incomplete_rekey index_parse : Error
  -- commands
  already_exists no_such_slot only_slot passwords_differ empty_password password_required : Error
  pass_the_password : ℕ → Error

pub data Result {ℓ} (A : Type ℓ) : Type ℓ where
  ok : A → Result A
  err : Error → Result A

-- `if b { bail!(e) }`
abbrev pub bail_if : Bool → Error → Result (Unit {0})
bail_if true e = err e
bail_if false e = ok tt

abbrev pub ok_or {ℓ} : {A : Type ℓ} → Option A → Error → Result A
ok_or none e = err e
ok_or (some a) e = ok a

-- `.ok()`
abbrev pub to_option {ℓ} : {A : Type ℓ} → Result A → Option A
to_option (ok a) = some a
to_option (err e) = none

-- `?`: the failure of the first step is the failure of the whole.
infixl 5 ◌>>=◌
abbrev pub ◌>>=◌ {ℓ ℓ'} : {X : Type ℓ} {Y : Type ℓ'} → Result X → (X → Result Y) → Result Y
step >>= next = elim step [ ok x ↦ next x | err e ↦ err e ]

infixl 5 ◌>>◌
abbrev pub ◌>>◌ {ℓ} : {Y : Type ℓ} → Result (Unit {0}) → Result Y → Result Y
step >> then_do = step >>= λ _. then_do

-- `map_err` to the one error, which the code has logged
abbrev pub or_fail {ℓ} : {A : Type ℓ} → Error → Result A → Result A
or_fail e (ok a) = ok a
or_fail e (err _) = err e
