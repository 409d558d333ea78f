-- ===== src/Crypto/Primitives.antt =====
-- The crates that src/crypto calls: chacha20poly1305, argon2, hkdf, hmac with sha2, ml-kem and rand.
-- Their functions are parameters; `IsSound` names what their documentation promises.
use pqfs.Common.{ℕ, ◌+◌, ◌^◌, ◌≤◌, ◌≡◌, Bytes, length, Option, some}

pub record Primitives : Type 0 where
  -- `XChaCha20Poly1305::{encrypt, decrypt}`: key, nonce, associated data, message
  pub seal : Bytes → Bytes → Bytes → Bytes → Option Bytes
  pub unseal : Bytes → Bytes → Bytes → Bytes → Option Bytes
  -- `rand::rng().fill_bytes`: the bytes of the n-th draw, of the length asked for
  pub fill_bytes : ℕ → ℕ → Bytes
  -- `Argon2::hash_password_into`: costs m, t, p, then password and salt
  pub argon2 : ℕ → ℕ → ℕ → Bytes → Bytes → Option Bytes
  -- `Hkdf::<Sha256>::new(None, ikm).expand(info)` to 32 bytes
  pub hkdf : Bytes → Bytes → Option Bytes
  -- `Hmac::<Sha256>`, which takes a key of any length
  pub hmac : Bytes → Bytes → Bytes
  -- ML-KEM of the selected parameter set: the lengths that its arrays have, a fresh seed from a draw,
  -- the public key of a seed, a ciphertext and a shared secret for a valid public key from a draw,
  -- and the shared secret that a seed gets from a ciphertext
  pub kem_public_key_len : ℕ
  pub kem_ciphertext_len : ℕ
  pub kem_generate : ℕ → Bytes
  pub kem_public_key : Bytes → Bytes
  pub kem_encapsulate : Bytes → ℕ → Option (Bytes × Bytes)
  pub kem_decapsulate : Bytes → Bytes → Bytes

-- The documented behaviour. A message of 2 ^ 37 bytes is below the cipher's limit.
pub record IsSound (p : Primitives) : Type 0 where
  pub unseal-seal : (k n a m c : Bytes) → p.seal k n a m ≡ some c → p.unseal k n a c ≡ some m
  pub length-seal : (k n a m c : Bytes) → p.seal k n a m ≡ some c → length c ≡ length m + 16
  pub seal_total :
      (k n a m : Bytes)
      → length k ≡ 32
      → length n ≡ 24
      → length m ≤ 2 ^ 37
      → (c : Bytes) × (p.seal k n a m ≡ some c)
  pub length-fill_bytes : (i n : ℕ) → length (p.fill_bytes i n) ≡ n

-- What FIPS 203 and the ml-kem crate document of the key encapsulation, whose chance of a failed decapsulation
-- is negligible: a fresh seed has 64 bytes, its public key is valid, and a ciphertext made for that key gives
-- the seed's owner the same secret.
pub record IsKem (p : Primitives) : Type 0 where
  pub length-kem_generate : (i : ℕ) → length (p.kem_generate i) ≡ 64
  pub length-kem_public_key :
      (seed : Bytes) → length seed ≡ 64 → length (p.kem_public_key seed) ≡ p.kem_public_key_len
  pub length-kem_encapsulate :
      (key ct secret : Bytes) (i : ℕ)
      → p.kem_encapsulate key i ≡ some (ct, secret)
      → length ct ≡ p.kem_ciphertext_len
  pub kem_decapsulate-encapsulate :
      (seed ct secret : Bytes) (i : ℕ)
      → length seed ≡ 64
      → p.kem_encapsulate (p.kem_public_key seed) i ≡ some (ct, secret)
      → p.kem_decapsulate seed ct ≡ secret
