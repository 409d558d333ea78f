-- ===== src/Index/Children.antt =====
-- The table of children by parent and name hash, `HashMap<(u64, [u8; 32]), u64>`.
use pqfs.Common.{
  ℕ, ◌≡◌, Bytes, List, [], ◌∷◌, Bool, true, ◌&&◌, Option, none, some, arith, ◌==◌, if◌then◌else◌,
  ap₂,
}
use pqfs.Crypto.Keys.{same_bytes}
use pqfs.Crypto.Volume.Mac.{same_bytes_refl, same_bytes-eq}

abbrev pub Children : Type 0
Children = List (ℕ × Bytes × ℕ)

-- Whether two pairs of a parent and a name hash are equal.
unfoldable pub same_name : ℕ → Bytes → ℕ → Bytes → Bool
same_name q h q' h' = q == q' && same_bytes h h'

unfoldable pub lookup : ℕ → Bytes → Children → Option ℕ
lookup q h [] = none
lookup q h ((q', h', i) ∷ t) = if same_name q h q' h' then some i else lookup q h t

unfoldable pub remove : ℕ → Bytes → Children → Children
remove q h [] = []
remove q h ((q', h', i) ∷ t) =
    let rest = remove q h t in if same_name q h q' h' then rest else (q', h', i) ∷ rest

unfoldable pub insert : ℕ → Bytes → ℕ → Children → Children
unfolding remove
insert q h i t = (q, h, i) ∷ remove q h t

pub same_name_refl : (q : ℕ) (h : Bytes) → same_name q h q h ≡ true
unfolding same_name
same_name_refl q h = ground (arith, same_bytes_refl h)

pub same_name-eq :
    (q : ℕ) (h : Bytes) (q' : ℕ) (h' : Bytes) → same_name q h q' h' ≡ true → (q ≡ q') × (h ≡ h')
unfolding same_name
same_name-eq q h q' h' e = ground (arith, same_bytes-eq h h')

-- Equal pairs compare alike with any pair, on either side.
pub same_name_left :
    (q : ℕ) (h : Bytes) (q' : ℕ) (h' : Bytes) (r : ℕ) (k : Bytes)
    → same_name q h q' h' ≡ true
    → same_name q h r k ≡ same_name q' h' r k
same_name_left q h q' h' r k e =
    let s = same_name-eq q h q' h' e in ap₂ (λ a b. same_name a b r k) s.0 s.1

pub same_name_right :
    (q : ℕ) (h : Bytes) (q' : ℕ) (h' : Bytes) (r : ℕ) (k : Bytes)
    → same_name q h q' h' ≡ true
    → same_name r k q h ≡ same_name r k q' h'
same_name_right q h q' h' r k e =
    let s = same_name-eq q h q' h' e in ap₂ (λ a b. same_name r k a b) s.0 s.1

pub lookup-remove :
    (q : ℕ) (h : Bytes) (q' : ℕ) (h' : Bytes) (t : Children)
    → lookup q' h' (remove q h t) ≡ (if same_name q' h' q h then none else lookup q' h' t)
unfolding lookup remove
lookup-remove q h q' h' [] = ground arith
lookup-remove q h q' h' ((r, k, i) ∷ t) =
    ground (
      arith,
      lookup-remove q h q' h' t,
      same_name_left q' h' q h r k,
      same_name_right q h r k q' h',
    )

pub lookup-insert :
    (q : ℕ) (h : Bytes) (i : ℕ) (q' : ℕ) (h' : Bytes) (t : Children)
    → lookup q' h' (insert q h i t) ≡ (if same_name q' h' q h then some i else lookup q' h' t)
unfolding lookup insert
lookup-insert q h i q' h' t = ground (arith, lookup-remove q h q' h' t)
