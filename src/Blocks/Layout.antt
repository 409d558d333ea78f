-- ===== src/Blocks/Layout.antt =====
-- Sizes and offsets of src/fs/blocks.rs. Numbers are exact; `Blocks.Bounds` shows that they fit a u64.
use pqfs.Common.{ℕ, ◌+◌, ◌-◌, ◌*◌, ◌/◌, min, leb, if◌then◌else◌}
use pqfs.Crypto.Header.{nonce_len}

abbrev pub block_plaintext : ℕ
block_plaintext = 65536

abbrev pub tag_len : ℕ
tag_len = 16

abbrev pub full_record : ℕ
full_record = nonce_len + block_plaintext + tag_len

-- `size.div_ceil(BLOCK_PLAINTEXT)`
unfoldable pub block_count : ℕ → ℕ
block_count size = (size + (block_plaintext - 1)) / block_plaintext

unfoldable pub plaintext_len : ℕ → ℕ → ℕ
plaintext_len size index =
    let start = index * block_plaintext in
    if leb size start then 0 else min (size - start) block_plaintext

unfoldable pub record_len : ℕ → ℕ → ℕ
record_len size index = nonce_len + plaintext_len size index + tag_len

unfoldable pub record_offset : ℕ → ℕ
record_offset index = index * full_record
