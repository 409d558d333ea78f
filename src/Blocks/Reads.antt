-- ===== src/Blocks/Reads.antt =====
-- `read_range` returns the bytes of the content that the range covers.
use pqfs.Common.{
  ℕ, ◌+◌, ◌-◌, ◌*◌, ◌/◌, ◌≤◌, ◌<◌, ◌≡◌, min, max, Bytes, length, take, drop, [], ◌∙◌, Option, none,
  some, ok, ltb, leb, ◌==◌, arith, slice, slice-append, slice-slice, slice-empty,
  slice-eq-take-drop, drop-nil, take-nil, ◌||◌, suc, zero, Bool-cases, inl, inr, ltb→lt, ltb→le, ap,
  ap₂,
}
use pqfs.Crypto.Primitives.{Primitives}
use pqfs.Blocks.Layout.{block_plaintext, block_count, plaintext_len}
use pqfs.Blocks.Ops.{extend, read_blocks, read_range}
use pqfs.Blocks.Stored.{block, length-block, IsStored, IsStoredIn}

-- The place up to which a read has come before block `index`.
abbrev stop : ℕ → ℕ → ℕ → ℕ
stop offset end index = min end (max offset (index * block_plaintext))

extend_lem :
    (content : Bytes) (offset end index : ℕ)
    → offset ≤ end
    → end ≤ length content
    → offset < index * block_plaintext + block_plaintext
    → extend offset end index (block content index) (slice content offset (stop offset end index))
      ≡ slice content offset (stop offset end (index + 1))
unfolding extend plaintext_len
extend_lem content offset end index ho he hi =
    let start = index * 65536 in
    let len : length (block content index) ≡ min (length content - start) 65536 =
      ground (arith, length-block content index) in
    let from = offset - start in
    let to = min (end - start) (length (block content index)) in
    elim (Bool-cases (ltb from to)) [
      | inl more ↦
          let lt : from < to = ltb→lt from to more in
          let s : start + from ≡ stop offset end index = omega arith in
          let e : start + to ≡ stop offset end (index + 1) = omega arith in
          let cut : slice (block content index) from to
              ≡ slice content (stop offset end index) (stop offset end (index + 1)) =
            unfold block in
            slice-slice content start (start + 65536) from to (omega arith)
            ∙ ap₂ (slice content) s e in
          rw more (
            rw cut (
              slice-append content offset (stop offset end index) (stop offset end (index + 1))
                (omega arith) (omega arith) (omega arith)))
      | inr done ↦
          let le : to ≤ from = ltb→le from to done in
          let e : stop offset end index ≡ stop offset end (index + 1) = omega arith in
          rw done (ap (slice content offset) e)
    ]

module _ (p : Primitives) (key content file : Bytes) (stored : IsStored p key content file) where
  -- The loop from block `index` to the last one completes the slice.
  read_blocks_lem :
      (offset end rounds index : ℕ)
      → offset < end
      → end ≤ length content
      → offset < index * block_plaintext + block_plaintext
      → index + rounds ≡ (end - 1) / block_plaintext + 1
      → read_blocks p key file
          (length content)
          offset
          end
          rounds
          index
          (slice content offset (stop offset end index))
        ≡ ok (slice content offset end)
  unfolding read_blocks
  read_blocks_lem offset end zero index ho he hi hr =
      let e : stop offset end index ≡ end = omega arith in ap (λ k. ok (slice content offset k)) e
  read_blocks_lem offset end (suc rounds) index ho he hi hr =
      let inside : index < block_count (length content) = unfold block_count in omega arith in
      rw (stored.reads index inside) (
        rw (extend_lem content offset end index (omega arith) he hi)
          (read_blocks_lem offset end rounds (index + 1) ho he (omega arith) (omega arith)))

-- What a read of `len` bytes at `offset` returns from a plain file.
abbrev pub plain_read : Bytes → ℕ → ℕ → Bytes
plain_read content offset len = take len (drop offset content)

-- Of a data file that holds a content, under any key, `read_range` returns what a read of the plain
-- content returns, for every offset and length, past the end too, and it does not fail.
pub read_range-eq-plain_read :
    (p : Primitives) (key content : Bytes) (contents : Option Bytes) (offset len : ℕ)
    → IsStoredIn p key content contents
    → read_range p key contents (length content) offset len ≡ ok (plain_read content offset len)
unfolding read_range
read_range-eq-plain_read p key content none offset len h = rw (h, drop-nil, take-nil) (ground arith)
read_range-eq-plain_read p key content (some file) offset len h =
    let end = min (offset + len) (length content) in
    let first = offset / 65536 in
    elim (Bool-cases (leb (length content) offset || len == 0)) [
      | inl empty ↦
          let none_left : end ≤ offset = ground arith in
          rw (
            empty,
            ← slice-eq-take-drop content offset len,
            slice-empty content offset end none_left,
          )
      | inr some_left ↦
          let lt : offset < end = ground arith in
          let e : stop offset end first ≡ offset = omega arith in
          let start : slice content offset (stop offset end first) ≡ [] =
            slice-empty content offset (stop offset end first) (omega arith) in
          rw some_left (
            rw (← slice-eq-take-drop content offset len, ← start)
              (read_blocks_lem p key content file h offset end ((end - 1) / 65536 + 1 - first) first
                lt (omega arith) (omega arith) (omega arith)))
    ]
