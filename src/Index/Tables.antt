-- ===== src/Index/Tables.antt =====
-- What `link` and `unlink_index` do to the two tables, read one name and one inode at a time.
use pqfs.Common.{
  ℕ, ◌≡◌, refl, Bytes, Bool, true, false, ◌&&◌, Option, none, some, arith, ◌==◌, if◌then◌else◌,
  Bool-cases, Option-cases, inl, inr, [], ◌∷◌,
}
use pqfs.Common.SortedMap
use pqfs.Common.SortedMap.{SortedMap, get-insert, get-remove, get-nil}
use pqfs.Index.Children
use pqfs.Index.Children.{same_name, lookup-remove, lookup-insert}
use pqfs.Index.State.{Inner, siblings, link, unlink_index, has_children}

unfoldable pub child : Inner → ℕ → Bytes → Option ℕ
child s q h = Children.lookup q h s.children

holds : Option (Unit {0}) → Bool
holds none = false
holds (some _) = true

-- Whether `i` is in the set of children of `q`.
unfoldable pub member : Inner → ℕ → ℕ → Bool
unfolding holds
member s q i = holds (SortedMap.get i (siblings q s))

pub child-link :
    (i q : ℕ) (h : Bytes) (s : Inner) (q' : ℕ) (h' : Bytes)
    → child (link i q h s) q' h' ≡ (if same_name q' h' q h then some i else child s q' h')
unfolding child link
child-link i q h s q' h' = lookup-insert q h i q' h' s.children

siblings-link :
    (i q : ℕ) (h : Bytes) (s : Inner) (q' : ℕ)
    → siblings q' (link i q h s)
      ≡ (if q' == q then SortedMap.insert i tt (siblings q s) else siblings q' s)
unfolding siblings link
siblings-link i q h s q' =
    ground (arith, get-insert q' q (SortedMap.insert i tt (siblings q s)) s.by_parent)

pub member-link :
    (i q : ℕ) (h : Bytes) (s : Inner) (q' i' : ℕ)
    → member (link i q h s) q' i' ≡ (if q' == q && i' == i then true else member s q' i')
unfolding member
member-link i q h s q' i' = rw siblings-link (ground (arith, get-insert i' i tt (siblings q s)))

-- Where the name leads to the inode, it is forgotten.
pub child-unlink :
    (i q : ℕ) (h : Bytes) (s : Inner) (q' : ℕ) (h' : Bytes)
    → child s q h ≡ some i
    → child (unlink_index i q h s) q' h' ≡ (if same_name q' h' q h then none else child s q' h')
unfolding child unlink_index
child-unlink i q h s q' h' found = ground (arith, found, lookup-remove q h q' h' s.children)

is_empty-get :
    (set : SortedMap (Unit {0})) (i : ℕ)
    → SortedMap.is_empty set ≡ true
    → SortedMap.get i set ≡ none
unfolding SortedMap.is_empty SortedMap.get
is_empty-get [] i h = refl
is_empty-get (_ ∷ m) i h = absurd (ground arith)

siblings-unlink :
    (i q : ℕ) (h : Bytes) (s : Inner) (q' i' : ℕ)
    → SortedMap.get i' (siblings q' (unlink_index i q h s))
      ≡ SortedMap.get i' (if q' == q then SortedMap.remove i (siblings q s) else siblings q' s)
unfolding siblings unlink_index SortedMap.remove SortedMap.get
siblings-unlink i q h s q' i' = elim (Option-cases (SortedMap.get q s.by_parent)) [
  | inl missing ↦ ground (arith, missing)
  | inr (set, found) ↦ elim (Bool-cases (SortedMap.is_empty (SortedMap.remove i set))) [
    | inl empty ↦ ground (
      arith,
      found,
      empty,
      get-remove q' q s.by_parent,
      is_empty-get (SortedMap.remove i set) i' empty,
    )
    | inr other ↦ ground (arith, found, other, get-insert q' q (SortedMap.remove i set) s.by_parent)
  ]
]

pub member-unlink :
    (i q : ℕ) (h : Bytes) (s : Inner) (q' i' : ℕ)
    → member (unlink_index i q h s) q' i' ≡ (if q' == q && i' == i then false else member s q' i')
unfolding member
member-unlink i q h s q' i' = rw siblings-unlink (ground (arith, get-remove i' i (siblings q s)))

holds-is_empty :
    (i : ℕ) (set : SortedMap (Unit {0}))
    → holds (SortedMap.get i set) ≡ true
    → SortedMap.is_empty set ≡ false
unfolding holds SortedMap.get SortedMap.is_empty
holds-is_empty i [] h = absurd (ground (arith, h))
holds-is_empty i (x ∷ set) h = refl

-- A listed inode is a child.
pub member-has_children : (s : Inner) (q i : ℕ) → member s q i ≡ true → has_children q s ≡ true
unfolding member has_children siblings
member-has_children s q i h = elim (Option-cases (SortedMap.get q s.by_parent)) [
  | inl missing ↦
      absurd (unfold holds in ground (arith, h, missing, SortedMap.get-nil {V = Unit {0}} i))
  | inr (set, there) ↦
      let listed : holds (SortedMap.get i set) ≡ true = ground (arith, h, there) in
      ground (arith, there, holds-is_empty i set listed)
]

is_empty-holds :
    (set : SortedMap (Unit {0}))
    → SortedMap.is_empty set ≡ false
    → (i : ℕ) × (holds (SortedMap.get i set) ≡ true)
unfolding holds SortedMap.get SortedMap.is_empty
is_empty-holds [] h = absurd (ground (arith, h))
is_empty-holds ((i, v) ∷ set) h = (i, ground arith)

-- An inode that has children has one in its set.
pub has_children-member :
    (s : Inner) (q : ℕ) → has_children q s ≡ true → (i : ℕ) × (member s q i ≡ true)
unfolding member has_children siblings
has_children-member s q h = elim (Option-cases (SortedMap.get q s.by_parent)) [
  | inl missing ↦ absurd (ground (arith, h, missing))
  | inr (set, there) ↦
      let (i, at) = is_empty-holds set (ground (arith, h, there)) in (i, ground (arith, at, there))
]
