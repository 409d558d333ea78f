-- ===== src/Blocks/Refinement.antt =====
-- The data files refine plain files: what src/fs/blocks.rs stores behaves as the content itself does under
-- the reads, writes and truncations of a plain file.
use pqfs.Common.{ℕ, ◌≡◌, Bytes, length, Result, ok, splice, resize, ap, ◌∙◌}
use pqfs.Crypto.Primitives.{Primitives, IsSound}
use pqfs.Blocks.Ops.{DataFile, read_range, write_range, truncate}
use pqfs.Blocks.Stored.{IsStoredIn}
use pqfs.Blocks.Reads.{plain_read, read_range-eq-plain_read}
use pqfs.Blocks.Writes.Range.{write_range_total}
use pqfs.Blocks.Truncate.{truncate_total}

module _ (p : Primitives) (sound : IsSound p) (key : Bytes) (key_ok : length key ≡ 32) where
  -- On a data file that holds a content, under a key of 32 bytes and a sound cipher, `write_range`
  -- succeeds for every offset and input, returns the new size, and leaves a file that holds the content
  -- with the input at the offset and zeros in a gap.
  pub write_range-eq-splice :
      (content : Bytes) (offset : ℕ) (input : Bytes) (s : DataFile)
      → IsStoredIn p key content s.contents
      → (after : DataFile) × (write_range p key (length content) offset input s
          ≡ (ok (length (splice content offset input)), after))
        × IsStoredIn p key (splice content offset input) after.contents
  write_range-eq-splice content offset input s h =
      let w = write_range_total p sound key key_ok content offset input s h in
      (w.after, w.runs, w.stored)

  -- On a data file that holds a content, under a key of 32 bytes and a sound cipher, `truncate` succeeds
  -- for every new length, and leaves a file that holds the content cut or grown by zeros to it.
  pub truncate-eq-resize :
      (content : Bytes) (n : ℕ) (s : DataFile)
      → IsStoredIn p key content s.contents
      → (after : DataFile) × (truncate p key (length content) n s ≡ (ok tt, after))
        × IsStoredIn p key (resize content n) after.contents
  truncate-eq-resize content n s h =
      let t = truncate_total p sound key key_ok content n s h in (t.after, t.runs, t.stored)

  -- On a data file that holds a content, under a key of 32 bytes and a sound cipher, a read after a write,
  -- at any offset and of any length, returns what the written content has there.
  pub read_range-write_range :
      (content : Bytes) (offset : ℕ) (input : Bytes) (s : DataFile) (from len : ℕ)
      → IsStoredIn p key content s.contents
      → read_range p key
          (write_range p key (length content) offset input s).1.contents
          (length (splice content offset input))
          from
          len
        ≡ ok (plain_read (splice content offset input) from len)
  read_range-write_range content offset input s from len h =
      let w = write_range_total p sound key key_ok content offset input s h in
      ap
        (λ (r : Result ℕ × DataFile).
          read_range p key r.1.contents (length (splice content offset input)) from len)
        w.runs
      ∙ read_range-eq-plain_read p key (splice content offset input) w.after.contents from len
          w.stored
