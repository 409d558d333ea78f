-- ===== src/Crypto/Aead.antt =====
-- src/crypto/aead.rs, `random_nonce` and `build_cipher` of src/crypto/keys.rs: a blob is the nonce, then
-- the ciphertext with its tag. The state is the count of draws from the random generator.
pub mod RoundTrip
use pqfs.Common.{
  ℕ, zero, suc, ◌+◌, ◌/◌, ◌%◌, Bytes, length, take, drop, [], ◌∷◌, ◌++◌, Error, ok_or, bail_if, ltb,
  ◌==◌, invalid_key_length, ciphertext_too_short, encryption_failed, decryption_failed, Result, ok,
  if◌then◌else◌, err,
}
use pqfs.Common
use pqfs.Common.Exec.{Exec, ◌>>=◌, pure, lift}
use pqfs.Crypto.Primitives.{Primitives}
use pqfs.Crypto.Header.{key_len, nonce_len}

-- `u64::to_le_bytes`, with the count of bytes left to write
abbrev pub le_bytes : ℕ → ℕ → Bytes
le_bytes zero x = []
le_bytes (suc n) x = x % 256 ∷ le_bytes n (x / 256)

-- A cipher is its key: `Key::try_from` fails on a slice of another length.
unfoldable pub build_cipher : Bytes → Result Bytes
build_cipher key = if length key == key_len then ok key else err invalid_key_length

module _ (p : Primitives) where
  unfoldable pub random_nonce : Exec ℕ Bytes
  random_nonce draws = (ok (p.fill_bytes draws nonce_len), draws + 1)

  -- The steps that every encryption shares, under a cipher that was built.
  unfoldable pub seal_blob : Bytes → Bytes → Bytes → Exec ℕ Bytes
  unfolding random_nonce
  seal_blob key aad msg = do
    nonce ← random_nonce
    ciphertext ← lift (ok_or (p.seal key nonce aad msg) encryption_failed)
    pure (nonce ++ ciphertext)

  -- The steps that every decryption shares, past the check of the length.
  unfoldable pub open_blob : Bytes → Bytes → Bytes → Result Bytes
  open_blob key aad blob =
      if ltb (length blob) (nonce_len + 16)
      then err ciphertext_too_short
      else ok_or (p.unseal key (take nonce_len blob) aad (drop nonce_len blob)) decryption_failed

  -- `Crypto::encrypt` and `Crypto::decrypt`, given the key of `self.cipher`
  unfoldable pub encrypt : Bytes → Bytes → Exec ℕ Bytes
  encrypt cipher plaintext = seal_blob cipher [] plaintext

  unfoldable pub decrypt : Bytes → Bytes → Result Bytes
  decrypt cipher blob = open_blob cipher [] blob

  -- The key and the index of a block, then its plaintext.
  unfoldable pub encrypt_block : Bytes → ℕ → Bytes → Exec ℕ Bytes
  unfolding build_cipher
  encrypt_block key index plaintext = do
    cipher ← lift (build_cipher key)
    seal_blob cipher (le_bytes 8 index) plaintext

  unfoldable pub decrypt_block : Bytes → ℕ → Bytes → Result Bytes
  unfolding build_cipher
  decrypt_block key index blob =
      if ltb (length blob) (nonce_len + 16)
      then err ciphertext_too_short
      else Common.◌>>=◌ (build_cipher key) (λ cipher. open_blob cipher (le_bytes 8 index) blob)
