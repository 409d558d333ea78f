-- ===== src/Common/SortedMap.antt =====
-- `BTreeMap` with keys in ascending order, and `BTreeSet` as a map to the unit type. A `HashMap` whose
-- order nothing reads is modelled by it too.
pub mod Order
use Prim.Native.Nat.{ℕ, ◌<◌}
use mathlib.Core.Path.{◌≡◌, refl}
use mathlib.Core.Bool.{Bool, true, false}
use mathlib.Core.Option.{Option, none, some}
use mathlib.Core.List.{List, [], ◌∷◌}
use native.Mathlib.Omega.{arith}
use pqfs.Common.Tests.{ltb, ◌==◌, if◌then◌else◌}

abbrev pub SortedMap {ℓ} : Type ℓ → Type ℓ
SortedMap V = List (ℕ × V)

module _ {ℓ} {V : Type ℓ} where
  unfoldable pub get : ℕ → SortedMap V → Option V
  get k [] = none
  get k ((j, v) ∷ m) = if k == j then some v else get k m

  unfoldable pub insert : ℕ → V → SortedMap V → SortedMap V
  insert k v [] = (k, v) ∷ []
  insert k v ((j, w) ∷ m) =
      if k == j then (k, v) ∷ m else if ltb k j then (k, v) ∷ (j, w) ∷ m else (j, w) ∷ insert k v m

  unfoldable pub remove : ℕ → SortedMap V → SortedMap V
  remove k [] = []
  remove k ((j, w) ∷ m) = let rest = remove k m in if k == j then rest else (j, w) ∷ rest

  -- `keys().next_back()`
  unfoldable pub last_key : SortedMap V → Option ℕ
  last_key [] = none
  last_key ((j, w) ∷ []) = some j
  last_key ((j, w) ∷ (i, v) ∷ m) = last_key ((i, v) ∷ m)

  unfoldable pub is_empty : SortedMap V → Bool
  is_empty [] = true
  is_empty (_ ∷ m) = false

  pub get-insert :
      (j k : ℕ) (v : V) (m : SortedMap V)
      → get j (insert k v m) ≡ (if j == k then some v else get j m)
  unfolding get insert
  get-insert j k v [] = refl
  get-insert j k v ((i, w) ∷ m) = ground (arith, get-insert j k v m)

  pub get-remove :
      (j k : ℕ) (m : SortedMap V) → get j (remove k m) ≡ (if j == k then none else get j m)
  unfolding get remove
  get-remove j k [] = ground arith
  get-remove j k ((i, w) ∷ m) = ground (arith, get-remove j k m)

  pub get-nil : (k : ℕ) → get k [] ≡ none
  unfolding get
  get-nil k = refl

  -- Every key is above `low`, and the keys ascend.
  abbrev pub Above : ℕ → SortedMap V → Type 0
  Above low [] = Unit
  Above low ((j, w) ∷ m) = (low < j) × Above j m

  -- The keys ascend, as those of a `BTreeMap` do.
  abbrev pub IsSorted : SortedMap V → Type 0
  IsSorted [] = Unit
  IsSorted ((j, w) ∷ m) = Above j m
