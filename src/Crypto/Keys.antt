-- ===== src/Crypto/Keys.antt =====
-- src/crypto/keys.rs: keys derived and wrapped, the header's MAC; `Crypto::from_master_key`.
use Prim.Native.String.{String}
use Prim.Native.Char.{code}
use pqfs.Common.{
  ℕ, ◌+◌, ◌≡◌, ◌≤◌, some, Bytes, length, [], ◌∷◌, Result, ok, err, ok_or, bail_if, ltb, ◌==◌, Bool,
  true, false, Option, ◌&&◌, ◌>>=◌, ◌>>◌, if◌then◌else◌, not, invalid_salt_length,
  derivation_failed, ciphertext_too_short, wrong_key_length, header_modified,
}
use pqfs.Common.Exec
use pqfs.Common.Exec.{Exec}
use pqfs.Crypto.Primitives.{Primitives}
use pqfs.Crypto.Header.{
  KdfParams, VolumeHeader, key_len, salt_len, nonce_len, zero_mac, max_header_bytes,
}
use pqfs.Crypto.Aead.{build_cipher, seal_blob, open_blob}

-- The bytes of an ASCII literal.
abbrev pub ascii : String → Bytes
ascii String.[] = []
ascii (String.◌∷◌ c s) = code c ∷ ascii s

-- `bincode::serialize` of a header, and the reader that `read_header` configures.
pub record HeaderCodec : Type 0 where
  pub serialize : VolumeHeader → Bytes
  pub deserialize : Bytes → Option VolumeHeader

-- What bincode promises: within the limit of the reader, what was written is read.
pub record IsFaithful (codec : HeaderCodec) : Type 0 where
  pub deserialize-serialize :
      (h : VolumeHeader)
      → length (codec.serialize h) ≤ max_header_bytes
      → codec.deserialize (codec.serialize h) ≡ some h

-- `struct Crypto`: a cipher is its key.
pub record Crypto : Type 0 where
  pub cipher : Bytes
  pub header : VolumeHeader
  pub filename_cipher : Bytes
  pub filename_hash_key : Bytes

-- Equality of byte strings, as `verify_slice` decides it.
unfoldable pub same_bytes : Bytes → Bytes → Bool
same_bytes [] [] = true
same_bytes [] (y ∷ ys) = false
same_bytes (x ∷ xs) [] = false
same_bytes (x ∷ xs) (y ∷ ys) = x == y && same_bytes xs ys

module _ (p : Primitives) where
  unfoldable pub derive_password_key : Bytes → Bytes → KdfParams → Result Bytes
  derive_password_key password salt kdf = do
    bail_if (not (length salt == salt_len)) invalid_salt_length
    ok_or (p.argon2 kdf.m_cost kdf.t_cost kdf.p_cost password salt) derivation_failed

  unfoldable pub derive_header_mac_key : Bytes → Result Bytes
  derive_header_mac_key master_key =
      ok_or (p.hkdf master_key (ascii "pqfs-header-mac-key")) derivation_failed

  unfoldable pub derive_recipient_kek : Bytes → Result Bytes
  derive_recipient_kek shared_secret =
      ok_or (p.hkdf shared_secret (ascii "pqfs-recipient-kek")) derivation_failed

  unfoldable pub wrap_master_key : Bytes → Bytes → Bytes → Exec ℕ Bytes
  unfolding build_cipher
  wrap_master_key kek volume_id master_key =
      Exec.◌>>=◌ (Exec.lift (build_cipher kek)) λ cipher. seal_blob p cipher volume_id master_key

  unfoldable pub unwrap_master_key : Bytes → Bytes → Bytes → Result Bytes
  unfolding build_cipher
  unwrap_master_key kek volume_id blob =
      if ltb (length blob) (nonce_len + 16) then err ciphertext_too_short else do
        cipher ← build_cipher kek
        plaintext ← open_blob p cipher volume_id blob
        bail_if (not (length plaintext == key_len)) wrong_key_length
        ok plaintext

  -- `Crypto::random_key`, `random_master_key`
  unfoldable pub random_key : Exec ℕ Bytes
  random_key draws = (ok (p.fill_bytes draws key_len), draws + 1)

  -- The two keys for file names: to encrypt, and to hash.
  unfoldable pub derive_filename_keys : Bytes → Result (Bytes × Bytes)
  derive_filename_keys master_key = do
    filename_key ← ok_or (p.hkdf master_key (ascii "pqfs-filename-key")) derivation_failed
    filename_hash_key ← ok_or (p.hkdf master_key (ascii "pqfs-filename-hash-key")) derivation_failed
    ok (filename_key, filename_hash_key)

  unfoldable pub from_master_key : Bytes → VolumeHeader → Result Crypto
  unfolding build_cipher derive_filename_keys
  from_master_key master_key header = do
    keys ← derive_filename_keys master_key
    cipher ← build_cipher master_key
    filename_cipher ← build_cipher keys.0
    ok (record {
      cipher = cipher;
      header = header;
      filename_cipher = filename_cipher;
      filename_hash_key = keys.1;
    })

  module _ (codec : HeaderCodec) where
    -- `VolumeHeader::authenticated_bytes`
    unfoldable pub authenticated_bytes : VolumeHeader → Bytes
    authenticated_bytes header = codec.serialize (record header { mac = zero_mac })

    unfoldable pub header_mac : Bytes → VolumeHeader → Bytes
    unfolding authenticated_bytes
    header_mac mac_key header = p.hmac mac_key (authenticated_bytes header)

    unfoldable pub verify_header_mac : Bytes → VolumeHeader → Result (Unit {0})
    unfolding authenticated_bytes same_bytes
    verify_header_mac mac_key header =
        bail_if (not (same_bytes (p.hmac mac_key (authenticated_bytes header)) header.mac))
          header_modified
