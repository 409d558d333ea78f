-- ===== src/Common/SortedMap/Order.antt =====
-- The order of a map's keys: insertion and removal keep it, and the last key is the greatest.
use Prim.Native.Nat.{ℕ, ◌<◌, ◌≤◌}
use mathlib.Core.Path.{◌≡◌, refl, subst}
use mathlib.Core.Logic.{inl, inr}
use mathlib.Core.Option.{some}
use mathlib.Core.List.{[], ◌∷◌}
use native.Mathlib.Omega.{arith}
use pqfs.Common.Tests.{ltb, ◌==◌, Bool-cases}
use pqfs.Common.SortedMap.{SortedMap, get, insert, remove, last_key, Above, IsSorted}

module _ {V : Type 0} where
  pub get-Above : (low k : ℕ) (v : V) (m : SortedMap V) → Above low m → get k m ≡ some v → low < k
  unfolding get
  get-Above low k v [] a h = absurd (ground arith)
  get-Above low k v ((j, w) ∷ m) (less, a) h = elim (Bool-cases (k == j)) [
    | inl same ↦ ground (arith, less, same)
    | inr other ↦
        let above = get-Above j k v m a (ground (arith, h, other)) in omega (arith, less, above)
  ]

  weaken : (low low' : ℕ) (m : SortedMap V) → low ≤ low' → Above low' m → Above low m
  weaken low low' [] h a = tt
  weaken low low' ((j, w) ∷ m) h (less, a) = (omega (arith, h, less), a)

  insert-Above :
      (low k : ℕ) (v : V) (m : SortedMap V) → low < k → Above low m → Above low (insert k v m)
  unfolding insert
  insert-Above low k v [] h a = (h, tt)
  insert-Above low k v ((j, w) ∷ m) h (less, a) = elim (Bool-cases (k == j)) [
    | inl same ↦ let k' : j ≡ k = ground (arith, same) in rw same (h, subst (λ l. Above l m) k' a)
    | inr other ↦ elim (Bool-cases (ltb k j)) [
      | inl small ↦ rw (other, small) (h, (ground (arith, small), a))
      | inr large ↦ rw (other, large) (less, insert-Above j k v m (ground (arith, other, large)) a)
    ]
  ]

  pub insert-IsSorted : (k : ℕ) (v : V) (m : SortedMap V) → IsSorted m → IsSorted (insert k v m)
  unfolding insert
  insert-IsSorted k v [] a = tt
  insert-IsSorted k v ((j, w) ∷ m) a = elim (Bool-cases (k == j)) [
    | inl same ↦ let k' : j ≡ k = ground (arith, same) in rw same (subst (λ l. Above l m) k' a)
    | inr other ↦ elim (Bool-cases (ltb k j)) [
      | inl small ↦ rw (other, small) (ground (arith, small), a)
      | inr large ↦ rw (other, large) (insert-Above j k v m (ground (arith, other, large)) a)
    ]
  ]

  remove-Above : (low k : ℕ) (m : SortedMap V) → Above low m → Above low (remove k m)
  unfolding remove
  remove-Above low k [] a = tt
  remove-Above low k ((j, w) ∷ m) (less, a) = elim (Bool-cases (k == j)) [
    | inl same ↦ rw same (weaken low j (remove k m) (omega (arith, less)) (remove-Above j k m a))
    | inr other ↦ rw other (less, remove-Above j k m a)
  ]

  Above-IsSorted : (low : ℕ) (m : SortedMap V) → Above low m → IsSorted m
  Above-IsSorted low [] a = tt
  Above-IsSorted low ((j, w) ∷ m) (less, a) = a

  pub remove-IsSorted : (k : ℕ) (m : SortedMap V) → IsSorted m → IsSorted (remove k m)
  unfolding remove
  remove-IsSorted k [] a = tt
  remove-IsSorted k ((j, w) ∷ m) a = elim (Bool-cases (k == j)) [
    | inl same ↦ rw same (Above-IsSorted j (remove k m) (remove-Above j k m a))
    | inr other ↦ rw other (remove-Above j k m a)
  ]

  pub last_key-max :
      (k : ℕ) (v : V) (m : SortedMap V)
      → IsSorted m
      → get k m ≡ some v
      → (l : ℕ) × (last_key m ≡ some l) × (k ≤ l)
  unfolding get last_key
  last_key-max k v [] a h = absurd (ground arith)
  last_key-max k v ((j, w) ∷ []) a h = (j, refl, ground arith)
  last_key-max k v ((j, w) ∷ (i, u) ∷ m) (less, a) h =
      let (l, last, above) = last_key-max i u ((i, u) ∷ m) a (ground arith) in
      elim (Bool-cases (k == j)) [
        | inl same ↦ (l, last, ground (arith, same, less, above))
        | inr other ↦ last_key-max k v ((i, u) ∷ m) a (ground (arith, h, other))
      ]
