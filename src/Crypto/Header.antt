-- ===== src/Crypto/Header.antt =====
-- The lengths of src/crypto/mod.rs, and the header of src/crypto/header.rs.
use pqfs.Common.{ℕ, ◌*◌, Bytes, List, replicate, []}

abbrev pub key_len : ℕ
key_len = 32

abbrev pub salt_len : ℕ
salt_len = 16

abbrev pub nonce_len : ℕ
nonce_len = 24

abbrev pub seed_len : ℕ
seed_len = 64

abbrev pub mac_len : ℕ
mac_len = 32

abbrev pub volume_id_len : ℕ
volume_id_len = 16

abbrev pub max_header_bytes : ℕ
max_header_bytes = 256 * 1024

abbrev pub header_version : ℕ
header_version = 3

pub record KdfParams : Type 0 where
  pub m_cost : ℕ
  pub t_cost : ℕ
  pub p_cost : ℕ

-- `KdfParams::default`
abbrev pub default_kdf : KdfParams
default_kdf = record { m_cost = 131_072; t_cost = 3; p_cost = 1 }

pub data KeySlot : Type 0 where
  -- salt, kdf, wrapped_master_key
  password : Bytes → KdfParams → Bytes → KeySlot
  -- label, kem_param, kem_public_key, kem_ciphertext, wrapped_master_key
  recipient : Bytes → ℕ → Bytes → Bytes → Bytes → KeySlot

pub data SlotKind : Type 0 where
  password recipient : SlotKind

-- `KeySlot::kind`, the printed word as an enumeration
unfoldable pub kind : KeySlot → SlotKind
kind (KeySlot.password salt kdf wrapped) = SlotKind.password
kind (KeySlot.recipient label param key ct wrapped) = SlotKind.recipient

-- `KeySlot::label`
unfoldable pub label : KeySlot → Bytes
label (KeySlot.password salt kdf wrapped) = []
label (KeySlot.recipient name param key ct wrapped) = name

pub record VolumeHeader : Type 0 where
  pub version : ℕ
  pub volume_id : Bytes
  pub slots : List KeySlot
  pub mac : Bytes

-- `[0u8; MAC_LEN]`
abbrev pub zero_mac : Bytes
zero_mac = replicate mac_len 0
