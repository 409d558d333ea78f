-- ===== src/Ops/Ancestors.antt =====
-- `is_descendant_of` of src/fs/ops.rs, by which `rename` refuses to move a directory below itself: it decides
-- whether an inode is on the way up from another.
use pqfs.Common.{
  ℕ, zero, suc, ◌+◌, ◌≤◌, ◌≡◌, ◌≢◌, sym, ap, ◌∙◌, ◌⊎◌, length, true, false, some, arith, ◌==◌,
  Bool-cases, Option-cases, inl, inr,
}
use pqfs.Common.SortedMap
use pqfs.Common.SortedMap.{SortedMap, get-remove}
use pqfs.Index.Entry.{Entry, EntryKind}
use pqfs.Index.State.{Inner, root_ino, has_children}
use pqfs.Index.Invariant.{IsLinked}
use pqfs.Index.Tables.{member, member-has_children}
use pqfs.Index.Tree.{Climbs, IsDirectory, IsTree, Climbs-length}
use pqfs.Ops.Tree.{climb, is_descendant_of}

-- `n` steps up from the inode lead to the other.
abbrev pub Rises : SortedMap Entry → ℕ → ℕ → ℕ → Type 0
Rises m zero i a = i ≡ a
Rises m (suc n) i a =
    (i ≢ root_ino) × (e : Entry) × (SortedMap.get i m ≡ some e) × Rises m n e.parent a

-- The inode is the other, or is below it.
abbrev pub IsBelow : SortedMap Entry → ℕ → ℕ → Type 0
IsBelow m i a = (n : ℕ) × Rises m n i a

-- The way up from the inode leads to the root in `n` steps, and does not pass the other below the root.
abbrev pub IsAside : SortedMap Entry → ℕ → ℕ → ℕ → Type 0
IsAside m n i a = Climbs (SortedMap.remove a m) n i

climb-IsBelow : (fuel i a : ℕ) (s : Inner) → climb fuel i a s ≡ true → IsBelow s.entries i a
unfolding climb
climb-IsBelow zero i a s h = (0, ground (arith, h))
climb-IsBelow (suc fuel) i a s h = elim (Bool-cases (i == root_ino)) [
  | inl root ↦ (0, ground (arith, h, root))
  | inr below ↦ elim (Bool-cases (i == a)) [
    | inl same ↦ (0, ground (arith, same))
    | inr other ↦ elim (Option-cases (SortedMap.get i s.entries)) [
      | inl missing ↦ absurd (ground (arith, h, below, other, missing))
      | inr (e, there) ↦
          let up : climb fuel e.parent a s ≡ true = ground (arith, h, below, other, there) in
          let r = climb-IsBelow fuel e.parent a s up in
          (suc r.0, (ground (arith, below), e, there, r.1))
    ]
  ]
]

climb-IsAside :
    (fuel n i a : ℕ) (s : Inner)
    → Climbs s.entries n i
    → n ≤ fuel
    → climb fuel i a s ≡ false
    → IsAside s.entries n i a × (i ≢ a)
unfolding climb
climb-IsAside zero zero i a s c le h = (c, ground (arith, h))
climb-IsAside zero (suc n) i a s c le h = absurd (omega (arith, le))
climb-IsAside (suc fuel) zero i a s c le h = (c, ground (arith, h, c))
climb-IsAside (suc fuel) (suc n) i a s (not_root, e, there, c) le h =
    let below : (i == root_ino) ≡ false = ground (arith, not_root) in
    let other : (i == a) ≡ false = ground (arith, h, below) in
    let up : climb fuel e.parent a s ≡ false = ground (arith, h, below, other, there) in
    let rest = climb-IsAside fuel n e.parent a s c (omega (arith, le)) up in
    (
      (not_root, e, ground (arith, there, other, get-remove i a s.entries), rest.0),
      ground (arith, other),
    )

-- In a tree of entries, for an inode that has an entry: either `is_descendant_of` is true and some number of
-- steps up from the inode leads to the other, or it is false, the inode is not the other and its whole way up
-- to the root, whose length the number of hops covers, does not pass it.
pub is_descendant_of-decides :
    (s : Inner) (i a : ℕ) (e : Entry)
    → IsTree s.entries
    → SortedMap.get i s.entries ≡ some e
    → ((is_descendant_of i a s ≡ true) × IsBelow s.entries i a)
      ⊎ ((is_descendant_of i a s ≡ false) × (i ≢ a) × (n : ℕ) × IsAside s.entries n i a)
unfolding is_descendant_of
is_descendant_of-decides s i a e tree there =
    let fuel = length s.entries + 1 in
    let (n, c) = tree.climbs i e there in
    let enough : n ≤ fuel = omega (arith, Climbs-length n s.entries i c) in
    elim (Bool-cases (climb fuel i a s)) [
      | inl below ↦ inl (below, climb-IsBelow fuel i a s below)
      | inr aside ↦ let r = climb-IsAside fuel n i a s c enough aside in inr (aside, r.1, n, r.0)
    ]

-- What is not a directory is on no way up from a directory.
pub file-IsAside :
    (m : SortedMap Entry) (a : ℕ) (f : Entry) (n i : ℕ)
    → IsTree m
    → SortedMap.get a m ≡ some f
    → f.kind ≢ EntryKind.dir
    → IsDirectory m i
    → Climbs m n i
    → IsAside m n i a
file-IsAside m a f zero i tree there file dir c = c
file-IsAside m a f (suc n) i tree there file (d, at, kind) (not_root, e, here, c) =
    let other : (i == a) ≡ false = elim (Bool-cases (i == a)) [
      | inl same ↦
          let i' : i ≡ a = ground (arith, same) in
          let d' : d ≡ f = cc (at, there, i') in
          absurd (file (ap (λ (x : Entry). x.kind) (sym d') ∙ kind))
      | inr other ↦ other
    ] in
    (
      not_root,
      e,
      ground (arith, here, other, get-remove i a m),
      file-IsAside m a f n e.parent tree there file (tree.parents i e here not_root) c,
    )

-- No entry below the root has the inode for its parent.
abbrev pub IsChildless : ℕ → SortedMap Entry → Type 0
IsChildless a m =
    (j : ℕ) (x : Entry) → SortedMap.get j m ≡ some x → j ≢ root_ino → (x.parent == a) ≡ false

pub file-IsChildless :
    (m : SortedMap Entry) (a : ℕ) (f : Entry)
    → IsTree m
    → SortedMap.get a m ≡ some f
    → f.kind ≢ EntryKind.dir
    → IsChildless a m
file-IsChildless m a f tree there file j x at not_root = elim (Bool-cases (x.parent == a)) [
  | inl same ↦
      let (d, g, kind) = tree.parents j x at not_root in
      let q : x.parent ≡ a = ground (arith, same) in
      let d' : d ≡ f = cc (g, there, q) in
      absurd (file (ap (λ (y : Entry). y.kind) (sym d') ∙ kind))
  | inr other ↦ other
]

pub has_children-IsChildless :
    (s : Inner) (a : ℕ) → IsLinked s → has_children a s ≡ false → IsChildless a s.entries
has_children-IsChildless s a linked none_there j x at not_root = elim (Bool-cases (x.parent == a)) [
  | inl same ↦
      let q : x.parent ≡ a = ground (arith, same) in
      let there : member s a j ≡ true =
        ap (λ k. member s k j) (sym q) ∙ linked.listed j x at not_root in
      absurd (cc (none_there, member-has_children s a j there))
  | inr other ↦ other
]
