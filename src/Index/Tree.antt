-- ===== src/Index/Tree.antt =====
-- The entries of src/fs/inner.rs as a tree: the parent of every entry is a directory, and going up from it
-- leads to the root.
use pqfs.Common.{
  ℕ, zero, suc, ◌+◌, ◌<◌, ◌≤◌, ◌≡◌, ◌≢◌, refl, sym, ap, ◌∙◌, subst, length, [], ◌∷◌, Bool, true,
  false, none, some, arith, ◌==◌, if◌then◌else◌, Bool-cases, inl, inr,
}
use pqfs.Common.SortedMap
use pqfs.Common.SortedMap.{SortedMap, get-remove, get-insert}
use pqfs.Index.Entry.{Entry, EntryKind}
use pqfs.Index.State.{root_ino}
pub mod Changes

-- `n` steps up from the inode lead to the root, and none of those before.
abbrev pub Climbs : SortedMap Entry → ℕ → ℕ → Type 0
Climbs m zero i = i ≡ root_ino
Climbs m (suc n) i =
    (i ≢ root_ino) × (e : Entry) × (SortedMap.get i m ≡ some e) × Climbs m n e.parent

-- The inode has an entry that is a directory.
abbrev pub IsDirectory : SortedMap Entry → ℕ → Type 0
IsDirectory m i = (e : Entry) × (SortedMap.get i m ≡ some e) × (e.kind ≡ EntryKind.dir)

pub record IsTree (m : SortedMap Entry) : Type 0 where
  pub root : IsDirectory m root_ino
  pub climbs : (i : ℕ) (e : Entry) → SortedMap.get i m ≡ some e → (n : ℕ) × Climbs m n i
  pub parents :
      (i : ℕ) (e : Entry) → SortedMap.get i m ≡ some e → i ≢ root_ino → IsDirectory m e.parent

-- No two ways up.
Climbs-unique : (m : SortedMap Entry) (n k i : ℕ) → Climbs m n i → Climbs m k i → n ≡ k
Climbs-unique m zero zero i c d = refl
Climbs-unique m zero (suc k) i c d = absurd (d.0 c)
Climbs-unique m (suc n) zero i c d = absurd (c.0 d)
Climbs-unique m (suc n) (suc k) i (_, e, g, c) (_, e', g', d) =
    let same : e ≡ e' = cc (g, g') in
    let parent : e.parent ≡ e'.parent = ap (λ (x : Entry). x.parent) same in
    ap suc (Climbs-unique m n k e'.parent (subst (Climbs m n) parent c) d)

-- A way up that is shorter than that of an inode does not pass it.
Climbs-remove :
    (m : SortedMap Entry) (k j n i : ℕ)
    → Climbs m k j
    → Climbs m n i
    → k < n
    → Climbs (SortedMap.remove i m) k j
Climbs-remove m zero j n i c d less = c
Climbs-remove m (suc k) j n i (not_root, e, g, c) d less = elim (Bool-cases (j == i)) [
  | inl same ↦
      let j' : j ≡ i = ground (arith, same) in
      let own : Climbs m (suc k) i = subst (Climbs m (suc k)) j' (not_root, e, g, c) in
      let equal = Climbs-unique m (suc k) n i own d in absurd (omega (arith, equal, less))
  | inr other ↦ (
    not_root,
    e,
    ground (arith, g, other, get-remove j i m),
    Climbs-remove m k e.parent n i c d (omega (arith, less)),
  )
]

length-remove-le : (i : ℕ) (m : SortedMap Entry) → length (SortedMap.remove i m) ≤ length m
unfolding SortedMap.remove
length-remove-le i [] = omega arith
length-remove-le i ((j, x) ∷ m) = elim (Bool-cases (i == j)) [
  | inl same ↦ rw same (omega (arith, length-remove-le i m))
  | inr other ↦ rw other (omega (arith, length-remove-le i m))
]

length-remove :
    (i : ℕ) (e : Entry) (m : SortedMap Entry)
    → SortedMap.get i m ≡ some e
    → length (SortedMap.remove i m) < length m
unfolding SortedMap.remove SortedMap.get
length-remove i e [] g = absurd (ground arith)
length-remove i e ((j, x) ∷ m) g = elim (Bool-cases (i == j)) [
  | inl same ↦ rw same (omega (arith, length-remove-le i m))
  | inr other ↦ rw other (omega (arith, length-remove i e m (ground (arith, g, other))))
]

-- The way up is at most as long as there are entries.
pub Climbs-length : (n : ℕ) (m : SortedMap Entry) (i : ℕ) → Climbs m n i → n ≤ length m
Climbs-length zero m i c = omega arith
Climbs-length (suc n) m i (not_root, e, g, c) =
    let above = Climbs-remove m n e.parent (suc n) i c (not_root, e, g, c) (omega arith) in
    omega (arith, Climbs-length n (SortedMap.remove i m) e.parent above, length-remove i e m g)

-- The way up is the same where each of its entries keeps its parent.
pub Climbs-keep :
    (m m' : SortedMap Entry)
    → ((j : ℕ) (e : Entry)
        → SortedMap.get j m ≡ some e
        → (x : Entry) × (SortedMap.get j m' ≡ some x) × (x.parent ≡ e.parent))
    → (n i : ℕ) → Climbs m n i
    → Climbs m' n i
Climbs-keep m m' keep zero i c = c
Climbs-keep m m' keep (suc n) i (not_root, e, g, c) =
    let (x, g', same) = keep i e g in
    (not_root, x, g', subst (Climbs m' n) (sym same) (Climbs-keep m m' keep n e.parent c))
