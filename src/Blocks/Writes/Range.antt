-- ===== src/Blocks/Writes/Range.antt =====
-- `write_range` is a write to a plain file: it succeeds, and the file then holds the new content.
use pqfs.Common.{
  ℕ, ◌+◌, ◌-◌, ◌*◌, ◌/◌, ◌≤◌, ◌<◌, ◌≡◌, min, max, Bytes, length, arith, ok, splice, resize, inl,
  inr, Option, none, some, Bool-cases, ◌==◌, length-splice, ap, subst, ext_get_or, get_or-splice,
  true, get_or-past,
}
use pqfs.Crypto.Primitives.{Primitives, IsSound}
use pqfs.Blocks.Layout.{block_plaintext, block_count, plaintext_len}
use pqfs.Blocks.Ops.{DataFile, read_block, set_len, write_range, file_end, open_rw}
use pqfs.Blocks.Stored.{block, length-block, get_or-block, IsStoredIn}
use pqfs.Blocks.Writes.Loop.{Between, Run, write_blocks_total}
use pqfs.Blocks.Writes.Records.{record_within, read_block-resize, read_block_by_len}

module _ (p : Primitives) (sound : IsSound p) (key : Bytes) (key_ok : length key ≡ 32) where
  module _ (content : Bytes) (offset : ℕ) (input : Bytes) where
    abbrev new_content : Bytes
    new_content = splice content offset input

    -- A block that lies before the write and within the old content.
    kept_block :
        (i : ℕ)
        → i * block_plaintext + block_plaintext ≤ min offset (length content)
        → block new_content i ≡ block content i
    unfolding plaintext_len
    kept_block i h =
        ext_get_or 0 (block new_content i) (block content i)
          (ground (
            arith,
            length-block new_content i,
            length-block content i,
            length-splice content offset input,
          ))
          (λ j.
            rw (get_or-block new_content i j, get_or-block content i j)
              (ground (arith, get_or-splice content offset input (i * 65536 + j))))

    kept_read :
        (file : Bytes) (i : ℕ)
        → i * block_plaintext + block_plaintext ≤ min offset (length content)
        → read_block p key file (length new_content) i ≡ read_block p key file (length content) i
    unfolding plaintext_len
    kept_read file i h =
        read_block_by_len p key file (length new_content) (length content) i
          (ground (arith, length-splice content offset input))

    -- The first block that is rewritten: the earlier ones are full and stay as they are.
    touched_from : ℕ
    touched_from = min (offset / block_plaintext) (block_count (length content) - 1)

    start-Between :
        (file : Bytes)
        → ((i : ℕ)
            → i < block_count (length content)
            → read_block p key file (length content) i ≡ ok (block content i))
        → Between p sound key key_ok content offset input touched_from file
    unfolding touched_from
    start-Between file reads = record {
      done = λ i hi hn.
          let full : i * 65536 + 65536 ≤ min offset (length content) =
            unfold block_count in omega arith in
          rw (kept_read file i full, kept_block i full)
            (reads i (unfold block_count in omega arith));
      todo = λ i hi ho. reads i ho;
    }

    length-written : length new_content ≡ max (length content) (offset + length input)
    length-written = length-splice content offset input

    -- `open_rw` of a file that holds the content.
    opened :
        (contents : Option Bytes) (draws : ℕ)
        → IsStoredIn p key content contents
        → (i : ℕ) → i < block_count (length content)
        → read_block p key
            (open_rw (record { contents = contents; draws = draws })).bytes
            (length content)
            i
          ≡ ok (block content i)
    unfolding block_count
    opened none draws h i hi = let e : length content ≡ 0 = ap length h in absurd (omega arith)
    opened (some file) draws h i hi = h.reads i hi

    abbrev rounds : ℕ
    rounds = block_count (length new_content) - touched_from

    -- The loop, from the opened file to the last block.
    whole-Run :
        (contents : Option Bytes) (draws : ℕ)
        → IsStoredIn p key content contents
        → Run p sound key key_ok content offset input rounds touched_from
            (open_rw (record { contents = contents; draws = draws }))
    whole-Run contents draws h =
        write_blocks_total p sound key key_ok content offset input rounds touched_from
          (open_rw (record { contents = contents; draws = draws }))
          (start-Between (open_rw (record { contents = contents; draws = draws })).bytes
            (opened contents draws h))

    rounds_reach : touched_from + rounds ≡ block_count (length new_content)
    unfolding touched_from block_count
    rounds_reach = omega (arith, length-written)

  -- What `write_range` leaves: the new size, and a file that holds the new content.
  pub record Written (content : Bytes) (offset : ℕ) (input : Bytes) (s : DataFile) : Type 0 where
    pub after : DataFile
    pub runs :
        write_range p key (length content) offset input s
        ≡ (ok (length (splice content offset input)), after)
    pub stored : IsStoredIn p key (splice content offset input) after.contents

  -- A write that leaves no block leaves an empty content.
  unwritten :
      (content : Bytes) (offset : ℕ) (input : Bytes)
      → (block_count (length (splice content offset input)) == 0) ≡ true
      → content ≡ splice content offset input
  unfolding block_count
  unwritten content offset input empty =
      let new : length (splice content offset input) ≡ 0 = ground arith in
      let old : length content ≡ 0 = omega (arith, length-splice content offset input) in
      ext_get_or 0 content (splice content offset input) (omega arith) (λ j.
        ground (arith, get_or-past content j 0, get_or-past (splice content offset input) j 0))

  pub write_range_total :
      (content : Bytes) (offset : ℕ) (input : Bytes) (s : DataFile)
      → IsStoredIn p key content s.contents
      → Written content offset input s
  unfolding write_range set_len touched_from
  write_range_total content offset input s h =
      let written = splice content offset input in
      let size = length written in
      let r = whole-Run content offset input s.contents s.draws h in
      elim (Bool-cases (block_count size == 0)) [
        | inl empty ↦ record {
          after = s;
          runs = rw (← length-splice content offset input, empty);
          stored =
              subst (λ c. IsStoredIn p key c s.contents) (unwritten content offset input empty) h;
        }
        | inr some_blocks ↦ record {
          after = record {
            contents = some (resize r.after.bytes (file_end size));
            draws = r.after.draws;
          };
          runs = rw (← length-splice content offset input, some_blocks) (rw r.runs);
          stored = record {
            reads = λ i hi.
                read_block-resize p key r.after.bytes (file_end size) size i (block written i)
                  (record_within size i hi)
                  (r.between.done i (omega (arith, rounds_reach content offset input)) hi);
          };
        }
      ]
