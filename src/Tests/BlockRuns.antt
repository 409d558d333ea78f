-- ===== src/Tests/BlockRuns.antt =====
-- The block files at concrete inputs.
use pqfs.Common.{
  ℕ, ◌+◌, ◌*◌, ◌^◌, ◌≤◌, ◌<◌, ◌≡◌, refl, Bytes, length, replicate, [], ◌∷◌, none, ok, splice,
  resize, arith, length-replicate,
}
use pqfs.Blocks.Layout.{
  block_plaintext, block_count, plaintext_len, record_len, record_offset, full_record,
}
use pqfs.Blocks.Bounds.{layout_bounds}
use pqfs.Blocks.Ops.{DataFile, read_range, write_range, truncate}
use pqfs.Blocks.Stored.{IsStoredIn}
use pqfs.Blocks.Reads.{plain_read, read_range-eq-plain_read}
use pqfs.Blocks.Refinement.{write_range-eq-splice, truncate-eq-resize, read_range-write_range}
use pqfs.Crypto.Aead.{encrypt_block, decrypt_block}
use pqfs.Crypto.Aead.RoundTrip.{decrypt_block-encrypt_block}
use pqfs.Tests.Toy.{toy, toy-IsSound}

abbrev key : Bytes
key = replicate 32 1

key_ok : length key ≡ 32
key_ok = length-replicate {A = ℕ} 32 1

abbrev empty_file : DataFile
empty_file = record { contents = none; draws = 0 }

-- Three bytes at offset 2 of an empty file.
written :
    (after : DataFile) × (write_range toy key 0 2 (7 ∷ 8 ∷ 9 ∷ []) empty_file
      ≡ (ok (length (splice [] 2 (7 ∷ 8 ∷ 9 ∷ []))), after))
    × IsStoredIn toy key (splice [] 2 (7 ∷ 8 ∷ 9 ∷ [])) after.contents
written = write_range-eq-splice toy toy-IsSound key key_ok [] 2 (7 ∷ 8 ∷ 9 ∷ []) empty_file refl

abbrev content : Bytes
content = splice [] 2 (7 ∷ 8 ∷ 9 ∷ [])

write_range-eq-splice_example :
    (after : DataFile) × (write_range toy key (length content) 4 (1 ∷ 2 ∷ []) written.0
      ≡ (ok (length (splice content 4 (1 ∷ 2 ∷ []))), after))
    × IsStoredIn toy key (splice content 4 (1 ∷ 2 ∷ [])) after.contents
write_range-eq-splice_example =
    write_range-eq-splice toy toy-IsSound key key_ok content 4 (1 ∷ 2 ∷ []) written.0 written.2

truncate-eq-resize_example :
    (after : DataFile) × (truncate toy key (length content) 3 written.0 ≡ (ok tt, after))
    × IsStoredIn toy key (resize content 3) after.contents
truncate-eq-resize_example =
    truncate-eq-resize toy toy-IsSound key key_ok content 3 written.0 written.2

read_range-eq-plain_read_example :
    read_range toy key (written.0).contents (length content) 1 3 ≡ ok (plain_read content 1 3)
read_range-eq-plain_read_example =
    read_range-eq-plain_read toy key content (written.0).contents 1 3 written.2

read_range-write_range_example :
    read_range toy key
      (write_range toy key (length content) 1 (4 ∷ []) written.0).1.contents
      (length (splice content 1 (4 ∷ [])))
      0
      9
    ≡ ok (plain_read (splice content 1 (4 ∷ [])) 0 9)
read_range-write_range_example =
    read_range-write_range toy toy-IsSound key key_ok content 1 (4 ∷ []) written.0 0 9 written.2

layout_bounds_example :
    (1 * block_plaintext + block_plaintext < 2 ^ 64)
    × (record_offset 1 + record_len 70000 1 < 2 ^ 64)
    × (0 < plaintext_len 70000 1)
    × (plaintext_len 70000 1 ≤ block_plaintext)
    × (record_len 70000 1 ≤ full_record)
layout_bounds_example = layout_bounds 70000 1 (omega arith) (unfold block_count in omega arith)

decrypt_block-encrypt_block_example :
    (blob : Bytes) × (encrypt_block toy key 3 (5 ∷ 6 ∷ []) 0 ≡ (ok blob, 1))
    × (length blob ≡ 42)
    × (decrypt_block toy key 3 blob ≡ ok (5 ∷ 6 ∷ []))
decrypt_block-encrypt_block_example =
    decrypt_block-encrypt_block toy toy-IsSound key 3 (5 ∷ 6 ∷ []) 0 key_ok (omega arith)
