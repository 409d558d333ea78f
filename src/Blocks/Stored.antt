-- ===== src/Blocks/Stored.antt =====
-- When a data file holds a content: each block reads back as its part of the content.
use pqfs.Common.{
  ℕ, ◌+◌, ◌*◌, ◌≤◌, ◌<◌, ◌≡◌, Bytes, length, get_or, take, drop, [], Option, none, some, ok, ltb,
  if◌then◌else◌, arith, length-take, length-drop, get_or-take, get_or-drop, slice, length-slice,
  get_or-slice, resize, splice, length-splice, length-resize, get_or-splice, get_or-resize,
  ext_get_or, get_or-past, ◌⊎◌, le→leb,
}
use pqfs.Crypto.Primitives.{Primitives}
use pqfs.Blocks.Layout.{block_plaintext, block_count, plaintext_len}
use pqfs.Blocks.Ops.{read_exact_at, read_block}

-- The plaintext of a block.
unfoldable pub block : Bytes → ℕ → Bytes
block content index =
    slice content (index * block_plaintext) (index * block_plaintext + block_plaintext)

module _ (p : Primitives) (key : Bytes) where
  pub record IsStored (content : Bytes) (file : Bytes) : Type 0 where
    pub reads :
        (index : ℕ)
        → index < block_count (length content)
        → read_block p key file (length content) index ≡ ok (block content index)

  -- The same for a file that may be missing: then it holds nothing.
  abbrev pub IsStoredIn : Bytes → Option Bytes → Type 0
  IsStoredIn content none = content ≡ []
  IsStoredIn content (some file) = IsStored content file

pub length-block :
    (content : Bytes) (index : ℕ)
    → length (block content index) ≡ plaintext_len (length content) index
unfolding block plaintext_len
length-block content index =
    ground (arith, length-slice content (index * 65536) (index * 65536 + 65536))

pub get_or-block :
    (content : Bytes) (index j : ℕ)
    → get_or (block content index) j 0
      ≡ (if ltb j block_plaintext then get_or content (index * block_plaintext + j) 0 else 0)
unfolding block
get_or-block content index j =
    ground (arith, get_or-slice content (index * 65536) (index * 65536 + 65536) j)

-- A record that was just written reads back.
pub read_exact_at-splice_self :
    (file : Bytes) (off : ℕ) (x : Bytes) (len : ℕ)
    → length x ≡ len
    → read_exact_at (splice file off x) off len ≡ ok x
unfolding read_exact_at
read_exact_at-splice_self file off x len h =
    rw (le→leb (off + len) (length (splice file off x)) (omega (arith, length-splice file off x))) (
      let e : take len (drop off (splice file off x)) ≡ x =
        ext_get_or 0 (take len (drop off (splice file off x))) x
          (omega (
            arith,
            length-take len (drop off (splice file off x)),
            length-drop off (splice file off x),
            length-splice file off x,
          ))
          (λ j. ground (
            arith,
            get_or-take len (drop off (splice file off x)) j 0,
            get_or-drop off (splice file off x) j 0,
            get_or-splice file off x (off + j),
            get_or-past x j 0,
          )) in
      rw e)

-- A write elsewhere leaves a record as it reads.
pub read_exact_at-splice_ne :
    (file : Bytes) (off : ℕ) (x : Bytes) (at len : ℕ) (r : Bytes)
    → (at + len ≤ off) ⊎ (off + length x ≤ at)
    → read_exact_at file at len ≡ ok r
    → read_exact_at (splice file off x) at len ≡ ok r
unfolding read_exact_at
read_exact_at-splice_ne file off x at len r apart h =
    rw (le→leb (at + len) (length (splice file off x)) (ground (arith, length-splice file off x))) (
      let e : take len (drop at (splice file off x)) ≡ take len (drop at file) =
        ext_get_or 0 (take len (drop at (splice file off x))) (take len (drop at file))
          (ground (
            arith,
            length-take len (drop at (splice file off x)),
            length-drop at (splice file off x),
            length-take len (drop at file),
            length-drop at file,
            length-splice file off x,
          ))
          (λ j. ground (
            arith,
            get_or-take len (drop at (splice file off x)) j 0,
            get_or-drop at (splice file off x) j 0,
            get_or-take len (drop at file) j 0,
            get_or-drop at file j 0,
            get_or-splice file off x (at + j),
          )) in
      rw e (ground arith))

-- Cutting or growing a file past a record leaves the record as it reads.
pub read_exact_at-resize :
    (file : Bytes) (n at len : ℕ) (r : Bytes)
    → at + len ≤ n
    → read_exact_at file at len ≡ ok r
    → read_exact_at (resize file n) at len ≡ ok r
unfolding read_exact_at
read_exact_at-resize file n at len r fits h =
    rw (le→leb (at + len) (length (resize file n)) (omega (arith, length-resize file n))) (
      let e : take len (drop at (resize file n)) ≡ take len (drop at file) =
        ext_get_or 0 (take len (drop at (resize file n))) (take len (drop at file))
          (ground (
            arith,
            length-take len (drop at (resize file n)),
            length-drop at (resize file n),
            length-take len (drop at file),
            length-drop at file,
            length-resize file n,
          ))
          (λ j. ground (
            arith,
            get_or-take len (drop at (resize file n)) j 0,
            get_or-drop at (resize file n) j 0,
            get_or-take len (drop at file) j 0,
            get_or-drop at file j 0,
            get_or-resize file n (at + j),
          )) in
      rw e (ground arith))
