-- ===== src/Crypto/Identity.antt =====
-- src/crypto/identity.rs and src/crypto/kem.rs: ML-KEM identities. The parameter set is the default
-- feature's, ML-KEM-768; files outside the backend are parameters of the commands.
use pqfs.Common.{
  ℕ, ◌+◌, Bytes, length, Result, ok, ok_or, bail_if, ◌==◌, not, ◌>>=◌, ◌>>◌, invalid_seed,
  invalid_kem_ciphertext, wrong_kem_param, invalid_public_key, not_an_identity,
}
use pqfs.Common.Exec
use pqfs.Common.Exec.{Exec}
use pqfs.Crypto.Primitives.{Primitives}
use pqfs.Crypto.Header.{seed_len}
use pqfs.Crypto.Keys.{derive_recipient_kek}

abbrev pub selected_kem_param : ℕ
selected_kem_param = 768

pub record PublicIdentity : Type 0 where
  pub kem_param : ℕ
  pub kem_public_key : Bytes

pub record Identity : Type 0 where
  pub seed : Bytes

-- `Identity::load`, past the read of the file
unfoldable pub load : Bytes → Result Identity
load bytes = do
  bail_if (not (length bytes == seed_len)) not_an_identity
  ok (record { seed = bytes })

module _ (p : Primitives) where
  unfoldable pub generate : Exec ℕ Identity
  generate draws = (ok (record { seed = p.kem_generate draws }), draws + 1)

  -- A decapsulation key is its seed: `Seed::try_from` checks the length.
  unfoldable pub decapsulation_key : Identity → Result Bytes
  decapsulation_key identity = do
    bail_if (not (length identity.seed == seed_len)) invalid_seed
    ok identity.seed

  unfoldable pub public : Identity → Result PublicIdentity
  unfolding decapsulation_key
  public identity = do
    dk ← decapsulation_key identity
    ok (record { kem_param = selected_kem_param; kem_public_key = p.kem_public_key dk })

  unfoldable pub recover_kek : Identity → Bytes → Result Bytes
  unfolding decapsulation_key derive_recipient_kek
  recover_kek identity kem_ciphertext = do
    bail_if (not (length kem_ciphertext == p.kem_ciphertext_len)) invalid_kem_ciphertext
    dk ← decapsulation_key identity
    derive_recipient_kek p (p.kem_decapsulate dk kem_ciphertext)

  -- `EncapsulationKey::new` and `encapsulate`: the ciphertext and the key that it carries
  unfoldable pub encapsulate : PublicIdentity → Exec ℕ (Bytes × Bytes)
  unfolding derive_recipient_kek
  encapsulate recipient draws =
      Exec.and_then
        (Exec.lift
          (do
            bail_if (not (recipient.kem_param == selected_kem_param)) wrong_kem_param
            bail_if (not (length recipient.kem_public_key == p.kem_public_key_len))
                invalid_public_key
            pair ← ok_or (p.kem_encapsulate recipient.kem_public_key draws) invalid_public_key
            kek ← derive_recipient_kek p pair.1
            ok (pair.0, kek))
          (draws + 1))
        Exec.pure
