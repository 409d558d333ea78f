-- ===== src/Common/Splice.antt =====
-- Byte strings that are cut, resized and overwritten: slices, `Vec::resize`, `copy_from_slice`, and a
-- write to a file at an offset. Laws go place by place, and past the end every place reads 0.
use pqfs.Common.Lists.{
  Bytes, length, get_or, take, drop, replicate, length-append, length-take, length-drop,
  length-replicate, get_or-take, get_or-drop, get_or-append, get_or-replicate, get_or-past,
  ext_get_or,
}
use Prim.Native.Nat.{ℕ, ◌+◌, ◌-◌, ◌≤◌, min, max}
use mathlib.Core.Path.{◌≡◌}
use mathlib.Core.List.{[], ◌++◌}
use native.Mathlib.Omega.{arith}
use pqfs.Common.Tests.{ltb, if◌then◌else◌}

unfoldable pub zeros : ℕ → Bytes
zeros n = replicate n 0

pub length-zeros : (n : ℕ) → length (zeros n) ≡ n
unfolding zeros
length-zeros n = length-replicate n _

-- Zeros past the end change no place.
pub get_or-append-zeros : (b : Bytes) (n j : ℕ) → get_or (b ++ zeros n) j 0 ≡ get_or b j 0
unfolding zeros
get_or-append-zeros b n j = ground (
  arith,
  get_or-append b (zeros n) j 0,
  get_or-past b j 0,
  get_or-replicate {A = ℕ} n 0 (j - length b),
)

-- `&b[from..to]`
unfoldable pub slice : Bytes → ℕ → ℕ → Bytes
slice b from to = take (to - from) (drop from b)

-- `b.resize(n, 0)`, and `set_len(n)` on a file
unfoldable pub resize : Bytes → ℕ → Bytes
resize b n = take n b ++ zeros (n - length b)

-- `b` with `x` at place `off`; what lies between the end of `b` and `off` reads 0.
unfoldable pub splice : Bytes → ℕ → Bytes → Bytes
splice b off x = take off (b ++ zeros (off - length b)) ++ (x ++ drop (off + length x) b)

pub length-slice :
    (b : Bytes) (from to : ℕ) → length (slice b from to) ≡ min (to - from) (length b - from)
unfolding slice
length-slice b from to = omega (arith, length-take (to - from) (drop from b), length-drop from b)

pub get_or-slice :
    (b : Bytes) (from to j : ℕ)
    → get_or (slice b from to) j 0 ≡ (if ltb j (to - from) then get_or b (from + j) 0 else 0)
unfolding slice
get_or-slice b from to j =
    ground (arith, get_or-take (to - from) (drop from b) j 0, get_or-drop from b j 0)

pub length-resize : (b : Bytes) (n : ℕ) → length (resize b n) ≡ n
unfolding resize
length-resize b n = omega (
  arith,
  length-append (take n b) (zeros (n - length b)),
  length-take n b,
  length-zeros (n - length b),
)

pub get_or-resize :
    (b : Bytes) (n j : ℕ) → get_or (resize b n) j 0 ≡ (if ltb j n then get_or b j 0 else 0)
unfolding resize
get_or-resize b n j = ground (
  arith,
  get_or-append (take n b) (zeros (n - length b)) j 0,
  length-take n b,
  get_or-take n b j 0,
  get_or-past b j 0,
  get_or-append-zeros [] (n - length b) (j - length (take n b)),
)

pub length-splice :
    (b : Bytes) (off : ℕ) (x : Bytes) → length (splice b off x) ≡ max (length b) (off + length x)
unfolding splice
length-splice b off x =
    let pad = b ++ zeros (off - length b) in
    omega (
      arith,
      length-append (take off pad) (x ++ drop (off + length x) b),
      length-append x (drop (off + length x) b),
      length-take off pad,
      length-append b (zeros (off - length b)),
      length-zeros (off - length b),
      length-drop (off + length x) b,
    )

pub get_or-splice :
    (b : Bytes) (off : ℕ) (x : Bytes) (j : ℕ)
    → get_or (splice b off x) j 0 ≡ (
        if ltb j off
        then get_or b j 0
        else if ltb j (off + length x)
        then get_or x (j - off) 0
        else get_or b j 0)
unfolding splice
get_or-splice b off x j =
    let pad = b ++ zeros (off - length b) in
    let rest = x ++ drop (off + length x) b in
    let len : length (take off pad) ≡ off = omega (
      arith,
      length-take off pad,
      length-append b (zeros (off - length b)),
      length-zeros (off - length b),
    ) in
    rw get_or-append (
      rw len (
        ground (
          arith,
          get_or-take off pad j 0,
          get_or-append-zeros b (off - length b) j,
          get_or-append x (drop (off + length x) b) (j - off) 0,
          get_or-drop (off + length x) b (j - off - length x) 0,
        )))

pub slice-append :
    (b : Bytes) (i j k : ℕ)
    → i ≤ j
    → j ≤ k
    → j ≤ length b
    → slice b i j ++ slice b j k ≡ slice b i k
slice-append b i j k hij hjk hj =
    let len : length (slice b i j) ≡ j - i = omega (arith, length-slice b i j) in
    ext_get_or 0 (slice b i j ++ slice b j k) (slice b i k)
      (omega (
        arith,
        length-append (slice b i j) (slice b j k),
        length-slice b i j,
        length-slice b j k,
        length-slice b i k,
      ))
      (λ m. rw get_or-append (
        rw len (
          ground
            (arith, get_or-slice b i j m, get_or-slice b i k m, get_or-slice b j k (m - (j - i))))))

pub slice-slice :
    (b : Bytes) (i j from to : ℕ)
    → i + to ≤ j
    → slice (slice b i j) from to ≡ slice b (i + from) (i + to)
slice-slice b i j from to h =
    ext_get_or 0 (slice (slice b i j) from to) (slice b (i + from) (i + to))
      (omega (
        arith,
        length-slice (slice b i j) from to,
        length-slice b i j,
        length-slice b (i + from) (i + to),
      ))
      (λ m.
        rw (get_or-slice (slice b i j) from to m, get_or-slice b (i + from) (i + to) m)
          (ground (arith, get_or-slice b i j (from + m))))

pub slice-empty : (b : Bytes) (i j : ℕ) → j ≤ i → slice b i j ≡ []
slice-empty b i j h =
    ext_get_or 0 (slice b i j) [] (omega (arith, length-slice b i j))
      (λ m. ground (arith, get_or-slice b i j m))

-- A slice up to a place that is cut off at the end of the bytes.
pub slice-eq-take-drop :
    (b : Bytes) (off len : ℕ) → slice b off (min (off + len) (length b)) ≡ take len (drop off b)
slice-eq-take-drop b off len =
    let to = min (off + len) (length b) in
    ext_get_or 0 (slice b off to) (take len (drop off b))
      (omega (arith, length-slice b off to, length-take len (drop off b), length-drop off b))
      (λ j. ground (
        arith,
        get_or-slice b off to j,
        get_or-take len (drop off b) j 0,
        get_or-drop off b j 0,
        get_or-past b (off + j) 0,
      ))

pub slice-past : (b : Bytes) (i j : ℕ) → length b ≤ i → slice b i j ≡ []
slice-past b i j h =
    ext_get_or 0 (slice b i j) [] (omega (arith, length-slice b i j))
      (λ m. ground (arith, get_or-slice b i j m, get_or-past b (i + m) 0))
