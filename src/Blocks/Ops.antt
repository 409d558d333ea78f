-- ===== src/Blocks/Ops.antt =====
-- The routines of src/fs/blocks.rs. A data file is `none` while it does not exist. Reads and writes
-- go to the place that the code seeks to; a write draws one nonce.
use pqfs.Common.{
  ℕ, zero, suc, ◌+◌, ◌-◌, ◌*◌, ◌/◌, min, max, Bytes, length, take, drop, [], ◌++◌, Bool, Option,
  none, some, Error, Result, ok, err, missing_file, short_read, ltb, leb, ◌==◌, ◌||◌, if◌then◌else◌,
  slice, resize, splice,
}
use pqfs.Common
use pqfs.Common.Exec.{Exec, ◌>>=◌, ◌>>◌, pure, lift, gets}
use pqfs.Crypto.Primitives.{Primitives}
use pqfs.Crypto.Aead.{encrypt_block, decrypt_block}
use pqfs.Blocks.Layout.{block_plaintext, block_count, plaintext_len, record_len, record_offset}

-- A data file by its path, and the count of draws from the random generator.
pub record DataFile : Type 0 where
  pub contents : Option Bytes
  pub draws : ℕ

-- The same once the file is open.
pub record Handle : Type 0 where
  pub bytes : Bytes
  pub draws : ℕ

-- `seek(SeekFrom::Start(off))`, then `read_exact` of `len` bytes
unfoldable pub read_exact_at : Bytes → ℕ → ℕ → Result Bytes
read_exact_at file off len =
    if leb (off + len) (length file) then ok (take len (drop off file)) else err short_read

-- `open_rw` creates the file if it is missing and does not truncate it.
abbrev pub open_rw : DataFile → Handle
open_rw s = record { bytes = elim s.contents [ none ↦ [] | some b ↦ b ]; draws = s.draws }

abbrev pub close : {A : Type 0} → Result A × Handle → Result A × DataFile
close (r, h) = (r, record { contents = some h.bytes; draws = h.draws })

unfoldable pub set_len : ℕ → Exec Handle (Unit {0})
set_len n h = (ok tt, record h { bytes = resize h.bytes n })

-- The part of a block that a read of `offset` up to `end` takes, added to `out`.
unfoldable pub extend : ℕ → ℕ → ℕ → Bytes → Bytes → Bytes
extend offset end index block out =
    let block_start = index * block_plaintext in
    let from = offset - block_start in
    let to = min (end - block_start) (length block) in
    if ltb from to then out ++ slice block from to else out

-- The new plaintext of a block: resized to its length under the new size, then overwritten.
unfoldable pub patch : ℕ → ℕ → Bytes → ℕ → Bytes → Bytes
patch new_size offset input index old =
    let target = plaintext_len new_size index in
    let buf = resize old target in
    let block_start = index * block_plaintext in
    let block_end = block_start + target in
    let write_start = max offset block_start in
    let write_end = min (offset + length input) block_end in
    if ltb write_start write_end
    then splice buf (write_start - block_start)
        (slice input (write_start - offset) (write_end - offset))
    else buf

-- The end of a data file of `size` bytes of plaintext, at least one.
abbrev pub file_end : ℕ → ℕ
file_end size = let last = block_count size - 1 in record_offset last + record_len size last

module _ (p : Primitives) (key : Bytes) where
  unfoldable pub read_block : Bytes → ℕ → ℕ → Result Bytes
  read_block file size index =
      Common.◌>>=◌ (read_exact_at file (record_offset index) (record_len size index))
        λ buf. decrypt_block p key index buf

  abbrev on_draws : {A : Type 0} → Handle → Result A × ℕ → Result A × Handle
  on_draws h (r, n) = (r, record h { draws = n })

  -- `seek`, then `write_all` of the sealed record
  unfoldable pub write_block : ℕ → Bytes → Exec Handle (Unit {0})
  write_block index plaintext = do
    sealed ← λ h. on_draws h (encrypt_block p key index plaintext h.draws)
    λ h. (ok tt, record h { bytes = splice h.bytes (record_offset index) sealed })

  -- `for index in first..=last`, with the count of rounds left
  unfoldable pub read_blocks : Bytes → ℕ → ℕ → ℕ → ℕ → ℕ → Bytes → Result Bytes
  read_blocks file size offset end zero index out = ok out
  read_blocks file size offset end (suc rounds) index out =
      Common.◌>>=◌ (read_block file size index) λ block.
        read_blocks file size offset end rounds (index + 1) (extend offset end index block out)

  unfoldable pub read_range : Option Bytes → ℕ → ℕ → ℕ → Result Bytes
  read_range contents size offset len =
      let end = min (offset + len) size in
      let first = offset / block_plaintext in
      let last = (end - 1) / block_plaintext in
      if leb size offset || len == 0 then ok [] else elim contents [
        | none ↦ err missing_file
        | some file ↦ read_blocks file size offset end (last + 1 - first) first []
      ]

  -- The plaintext that a block has before a write: none beyond the old blocks.
  unfoldable pub old_block : ℕ → ℕ → Exec Handle Bytes
  old_block size index h =
      (if ltb index (block_count size) then read_block h.bytes size index else ok [], h)

  -- `for index in touched_from..new_blocks`, with the count of rounds left
  unfoldable pub write_blocks : ℕ → ℕ → ℕ → Bytes → ℕ → ℕ → Exec Handle (Unit {0})
  write_blocks size new_size offset input zero index = pure tt
  write_blocks size new_size offset input (suc rounds) index = do
    old ← old_block size index
    write_block index (patch new_size offset input index old)
    write_blocks size new_size offset input rounds (index + 1)

  unfoldable pub write_range : ℕ → ℕ → Bytes → Exec DataFile ℕ
  write_range size offset input s =
      let new_size = max size (offset + length input) in
      let old_blocks = block_count size in
      let new_blocks = block_count new_size in
      let touched_from = min (offset / block_plaintext) (old_blocks - 1) in
      if new_blocks == 0
      then (ok new_size, s)
      else close (
          (do
            write_blocks size new_size offset input (new_blocks - touched_from) touched_from
            set_len (file_end new_size)
            pure new_size)
            (open_rw s))

  unfoldable pub truncate : ℕ → ℕ → Exec DataFile (Unit {0})
  truncate size new_size s =
      let new_blocks = block_count new_size in
      let last = new_blocks - 1 in
      if ltb size new_size
      then (do _ ← write_range size new_size []; pure tt) s
      else if new_size == size
      then (ok tt, s)
      else if new_blocks == 0
      then close (set_len 0 (open_rw s))
      else close (
          (do
            bytes ← gets (λ h. h.bytes)
            buf ← lift (read_block bytes size last)
            write_block last (take (plaintext_len new_size last) buf)
            set_len (file_end new_size))
            (open_rw s))
