-- ===== src/Blocks/Bounds.antt =====
-- The numbers of src/fs/blocks.rs fit a u64 when offsets and sizes are below 2 ^ 63, as the kernel
-- keeps them, so the exact arithmetic of the model is that of the code.
use pqfs.Common.{ℕ, ◌+◌, ◌*◌, ◌^◌, ◌≤◌, ◌<◌, arith}
use pqfs.Blocks.Layout.{
  block_plaintext, block_count, plaintext_len, record_len, record_offset, full_record,
}

-- For a file below 2 ^ 63 bytes and a block that it has: the block's end and the record's end are below
-- 2 ^ 64, the plaintext is not empty and at most a full block, and the record is at most a full one.
pub layout_bounds :
    (size index : ℕ)
    → size < 2 ^ 63
    → index < block_count size
    → (index * block_plaintext + block_plaintext < 2 ^ 64)
      × (record_offset index + record_len size index < 2 ^ 64)
      × (0 < plaintext_len size index)
      × (plaintext_len size index ≤ block_plaintext)
      × (record_len size index ≤ full_record)
unfolding block_count record_offset record_len plaintext_len
layout_bounds size index hs hi = ground arith
