-- ===== src/Blocks/Truncate.antt =====
-- `truncate` on a data file cuts or grows the plain content, filling with zeros.
use pqfs.Common.{
  ℕ, zero, suc, ◌+◌, ◌-◌, ◌*◌, ◌≤◌, ◌<◌, ◌≡◌, Bytes, length, arith, ok, splice, resize, ltb, inl,
  inr, Option, none, some, Bool-cases, ltb→lt, ◌==◌, take, length-take, get_or-take, length-splice,
  length-resize, get_or-resize, [], ap, subst, ext_get_or, get_or-splice, get_or-past, true, false,
  le→ltb, lt→ltb,
}
use pqfs.Crypto.Primitives.{Primitives, IsSound}
use pqfs.Blocks.Layout.{block_plaintext, block_count, plaintext_len, record_offset}
use pqfs.Blocks.Ops.{DataFile, read_block, set_len, truncate, file_end, open_rw}
use pqfs.Blocks.Stored.{block, length-block, get_or-block, IsStored, IsStoredIn}
use pqfs.Blocks.Writes.Range.{write_range_total}
use pqfs.Blocks.Writes.Records.{
  records_apart, record_within, read_block-splice_ne, read_block-resize, write_block_total,
  read_block_by_len,
}

-- Growing by an empty write past the end is growing by zeros.
splice-eq-resize :
    (content : Bytes) (n : ℕ) → length content ≤ n → splice content n [] ≡ resize content n
splice-eq-resize content n h =
    ext_get_or 0 (splice content n []) (resize content n)
      (omega (arith, length-splice content n [], length-resize content n))
      (λ j.
        rw (get_or-splice content n [] j, get_or-resize content n j)
          (ground (arith, get_or-past content j 0)))

resize_self : (content : Bytes) (n : ℕ) → n ≡ length content → content ≡ resize content n
resize_self content n h =
    ext_get_or 0 content (resize content n) (omega (arith, length-resize content n))
      (λ j. rw (get_or-resize content n j) (ground (arith, get_or-past content j 0)))

module _ (content : Bytes) (n : ℕ) (shorter : n ≤ length content) where
  -- The blocks before the last one are as they were.
  kept_block :
      (i : ℕ)
      → i * block_plaintext + block_plaintext ≤ n
      → block (resize content n) i ≡ block content i
  unfolding plaintext_len
  kept_block i h =
      ext_get_or 0 (block (resize content n) i) (block content i)
        (ground (
          arith,
          length-block (resize content n) i,
          length-block content i,
          length-resize content n,
        ))
        (λ j.
          rw (get_or-block (resize content n) i j, get_or-block content i j)
            (ground (arith, get_or-resize content n (i * 65536 + j))))

  -- The last block is cut.
  cut_block : (i : ℕ) → take (plaintext_len n i) (block content i) ≡ block (resize content n) i
  unfolding plaintext_len
  cut_block i =
      ext_get_or 0 (take (plaintext_len n i) (block content i)) (block (resize content n) i)
        (ground (
          arith,
          length-take (plaintext_len n i) (block content i),
          length-block (resize content n) i,
          length-block content i,
          length-resize content n,
        ))
        (λ j.
          rw
            (
              get_or-take (plaintext_len n i) (block content i) j 0,
              get_or-block (resize content n) i j,
              get_or-block content i j,
            )
            (ground (arith, get_or-resize content n (i * 65536 + j))))

module _ (p : Primitives) (sound : IsSound p) (key : Bytes) (key_ok : length key ≡ 32) where
  -- What `truncate` leaves: a file that holds the content at its new length.
  pub record Truncated (content : Bytes) (n : ℕ) (s : DataFile) : Type 0 where
    pub after : DataFile
    pub runs : truncate p key (length content) n s ≡ (ok tt, after)
    pub stored : IsStoredIn p key (resize content n) after.contents

  grown :
      (content : Bytes) (n : ℕ) (s : DataFile)
      → length content < n
      → IsStoredIn p key content s.contents
      → Truncated content n s
  unfolding truncate
  grown content n s more h =
      let w = write_range_total p sound key key_ok content n [] s h in
      record {
        after = w.after;
        runs = rw (lt→ltb (length content) n more, w.runs);
        stored =
            subst (λ c. IsStoredIn p key c w.after.contents)
              (splice-eq-resize content n (omega arith)) w.stored;
      }

  module _ (content file : Bytes) (n : ℕ) (less : n < length content)
      (h : IsStored p key content file) where
    abbrev last : ℕ
    last = block_count n - 1

    -- The blocks of a file whose last block was written anew, and that was cut behind it.
    cut_reads :
        (blob : Bytes)
        → read_block p key (splice file (record_offset last) blob) n last
          ≡ ok (block (resize content n) last)
        → (i : ℕ) → i < block_count n
        → read_block p key (resize (splice file (record_offset last) blob) (file_end n)) n i
          ≡ ok (block (resize content n) i)
    unfolding block_count
    cut_reads blob rewritten i hi =
        read_block-resize p key (splice file (record_offset last) blob) (file_end n) n i
          (block (resize content n) i) (record_within n i hi)
          (elim (Bool-cases (i == last)) [
            | inl same ↦
                let e : last ≡ i = ground arith in
                subst
                  (λ k.
                    read_block p key (splice file (record_offset last) blob) n k
                    ≡ ok (block (resize content n) k))
                  e rewritten
            | inr other ↦
                let lt : i < last = ground arith in
                read_block-splice_ne p key file (record_offset last) blob n i
                  (block (resize content n) i) (inl (records_apart n i last lt))
                  (rw
                    (
                      read_block_by_len p key file n (length content) i
                          (unfold plaintext_len in ground arith),
                      kept_block content n (omega arith) i (omega arith),
                    )
                    (h.reads i (omega arith)))
          ])

    shrunk :
        (draws : ℕ) → 0 < n → Truncated content n (record { contents = some file; draws = draws })
    unfolding truncate set_len block_count
    shrunk draws some_left =
        let le : n ≤ length content = omega arith in
        let w =
          write_block_total p key sound key_ok (record { bytes = file; draws = draws }) last
            (block (resize content n) last)
            (unfold plaintext_len in ground (arith, length-block (resize content n) last)) in
        let old : read_block p key file (length content) last ≡ ok (block content last) =
          h.reads last (omega arith) in
        let some_blocks : (block_count n == 0) ≡ false = ground arith in
        let not_longer : ltb (length content) n ≡ false = ground arith in
        let not_same : (n == length content) ≡ false = ground arith in
        let len : plaintext_len n last ≡ length (block (resize content n) last) = omega (
          arith,
          length-block (resize content n) last,
          ap (λ k. plaintext_len k last) (length-resize content n),
        ) in
        record {
          after = record {
            contents = some (resize (splice file (record_offset last) w.blob) (file_end n));
            draws = draws + 1;
          };
          runs =
              rw (not_longer, not_same, some_blocks)
                (rw old (rw (cut_block content n le last) (rw w.runs)));
          stored = record {
            reads = rw (length-resize content n) (cut_reads w.blob (w.reads n len));
          };
        }

  emptied : (content : Bytes) (s : DataFile) → 0 < length content → Truncated content 0 s
  unfolding truncate set_len block_count
  emptied content s some_bytes = record {
    after = record { contents = some (resize (open_rw s).bytes 0); draws = s.draws };
    runs =
        rw (le→ltb (length content) 0 (omega arith))
          (let e : (0 == length content) ≡ false = ground arith in rw e);
    stored = record { reads = λ i hi. absurd (omega (arith, length-resize content 0)) };
  }

  unchanged :
      (content : Bytes) (n : ℕ) (s : DataFile)
      → n ≡ length content
      → IsStoredIn p key content s.contents
      → Truncated content n s
  unfolding truncate
  unchanged content n s same h = record {
    after = s;
    runs =
        rw (le→ltb (length content) n (omega arith))
          (let e : (n == length content) ≡ true = ground arith in rw e);
    stored = subst (λ c. IsStoredIn p key c s.contents) (resize_self content n same) h;
  }

  -- A missing file has nothing to cut.
  cut :
      (content : Bytes) (n : ℕ) (contents : Option Bytes) (draws : ℕ)
      → n < length content
      → IsStoredIn p key content contents
      → Truncated content n (record { contents = contents; draws = draws })
  cut content n none draws less h = let e : length content ≡ 0 = ap length h in absurd (omega arith)
  cut content zero (some file) draws less h = emptied content _ less
  cut content (suc n) (some file) draws less h =
      shrunk content file (suc n) less h draws (omega arith)

  -- For every content and new length `truncate` succeeds, and leaves the content cut or grown by
  -- zeros to that length.
  pub truncate_total :
      (content : Bytes) (n : ℕ) (s : DataFile)
      → IsStoredIn p key content s.contents
      → Truncated content n s
  truncate_total content n s h = elim (Bool-cases (ltb (length content) n)) [
    | inl more ↦ grown content n s (ltb→lt (length content) n more) h
    | inr no_more ↦ elim (Bool-cases (n == length content)) [
      | inl same ↦ unchanged content n s (ground arith) h
      | inr other ↦ cut content n s.contents s.draws (ground arith) h
    ]
  ]
