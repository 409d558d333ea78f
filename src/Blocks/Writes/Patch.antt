-- ===== src/Blocks/Writes/Patch.antt =====
-- The plaintext that `write_range` seals for each block is that block of the new content.
use pqfs.Common.{
  ℕ, ◌+◌, ◌-◌, ◌*◌, ◌≤◌, ◌<◌, ◌≡◌, refl, min, max, Bytes, length, get_or, ltb, arith, ltb→lt,
  ltb→le, slice, length-slice, get_or-slice, splice, length-splice, get_or-splice, resize,
  length-resize, get_or-resize, ext_get_or, Bool-cases, inl, inr, get_or-past, if◌then◌else◌,
}
use pqfs.Blocks.Layout.{block_plaintext, plaintext_len}
use pqfs.Blocks.Ops.{patch}
use pqfs.Blocks.Stored.{block, length-block, get_or-block}

plaintext_len_cases :
    (size index : ℕ)
    → plaintext_len size index ≡ min (size - index * block_plaintext) block_plaintext
unfolding plaintext_len
plaintext_len_cases size index = ground arith

module _ (content : Bytes) (offset : ℕ) (input : Bytes) (index : ℕ) where
  abbrev written : Bytes
  written = splice content offset input

  abbrev target : ℕ
  target = plaintext_len (length written) index

  length-patch : length (patch (length written) offset input index (block content index)) ≡ target
  unfolding patch
  length-patch =
      let start = index * 65536 in
      let ws = max offset start in
      let we = min (offset + length input) (start + target) in
      let buf = resize (block content index) target in
      let piece = slice input (ws - offset) (we - offset) in
      elim (Bool-cases (ltb ws we)) [
        | inl some_bytes ↦
            let lt : ws < we = ltb→lt ws we some_bytes in
            rw some_bytes (
              omega (
                arith,
                length-splice buf (ws - start) piece,
                length-resize (block content index) target,
                length-slice input (ws - offset) (we - offset),
              ))
        | inr no_bytes ↦ rw no_bytes (length-resize (block content index) target)
      ]

  module _ (s ws we t j : ℕ) (hs : s ≡ index * block_plaintext) (hws : ws ≡ max offset s)
      (hwe : we ≡ min (offset + length input) (s + t))
      (ht : t ≡ min (max (length content) (offset + length input) - s) block_plaintext) where
    -- The bytes of the new content at place `j` of the block.
    new_at : get_or (block written index) j 0 ≡ (
        if ltb j block_plaintext
        then if ltb (s + j) offset
          then get_or content (s + j) 0
          else if ltb (s + j) (offset + length input)
          then get_or input (s + j - offset) 0
          else get_or content (s + j) 0
        else 0)
    new_at = rw (get_or-block written index j, ← hs, get_or-splice content offset input (s + j))

    resized_at :
        get_or (resize (block content index) t) j 0
        ≡ (if ltb j t then if ltb j block_plaintext then get_or content (s + j) 0 else 0 else 0)
    resized_at = rw (get_or-resize (block content index) t j, get_or-block content index j, ← hs)

    untouched_at :
        we ≤ ws → get_or (resize (block content index) t) j 0 ≡ get_or (block written index) j 0
    untouched_at le = rw (resized_at, new_at) (ground (arith, get_or-past content (s + j) 0))

    touched_at :
        ws < we
        → get_or
            (splice
              (resize (block content index) t)
              (ws - s)
              (slice input (ws - offset) (we - offset)))
            j
            0
          ≡ get_or (block written index) j 0
    touched_at lt =
        let piece = slice input (ws - offset) (we - offset) in
        let width : length piece ≡ we - ws =
          omega (arith, length-slice input (ws - offset) (we - offset)) in
        rw
          (
            get_or-splice (resize (block content index) t) (ws - s) piece j,
            width,
            resized_at,
            new_at,
          )
          (rw (get_or-slice input (ws - offset) (we - offset) (j - (ws - s)))
            (ground (arith, get_or-past content (s + j) 0)))

  patch_at :
      (j : ℕ)
      → get_or (patch (length written) offset input index (block content index)) j 0
        ≡ get_or (block written index) j 0
  unfolding patch
  patch_at j =
      let s = index * 65536 in
      let ws = max offset s in
      let we = min (offset + length input) (s + target) in
      let ht : target ≡ min (max (length content) (offset + length input) - s) 65536 =
        omega
          (arith, plaintext_len_cases (length written) index, length-splice content offset input) in
      elim (Bool-cases (ltb ws we)) [
        | inl some_bytes ↦
            rw some_bytes (touched_at s ws we target j refl refl refl ht (ltb→lt ws we some_bytes))
        | inr no_bytes ↦
            rw no_bytes (untouched_at s ws we target j refl refl refl ht (ltb→le ws we no_bytes))
      ]

  pub patch_lem :
      patch (length written) offset input index (block content index) ≡ block written index
  patch_lem =
      ext_get_or 0 (patch (length written) offset input index (block content index))
        (block written index) (omega (arith, length-patch, length-block written index)) patch_at
