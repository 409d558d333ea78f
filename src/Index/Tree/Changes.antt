-- ===== src/Index/Tree/Changes.antt =====
-- What keeps the entries a tree: a new entry in a directory, the removal of an entry without children, a move
-- to a directory whose way up does not pass the entry, and a change of attributes.
use pqfs.Common.{
  ℕ, zero, suc, ◌≡◌, ◌≢◌, refl, sym, ap, ◌∙◌, subst, false, none, some, arith, ◌==◌, if◌then◌else◌,
  Bool-cases, inl, inr,
}
use pqfs.Common.SortedMap
use pqfs.Common.SortedMap.{SortedMap, get-remove, get-insert}
use pqfs.Index.Entry.{Entry}
use pqfs.Index.State.{root_ino}
use pqfs.Index.Tree.{Climbs, IsDirectory, IsTree, Climbs-keep}

-- A way up does not pass an inode without children below its start.
pub Climbs-without :
    (m m' : SortedMap Entry) (ino : ℕ)
    → ((j : ℕ) → SortedMap.get j m' ≡ (if j == ino then none else SortedMap.get j m))
    → ((j : ℕ) (x : Entry) → SortedMap.get j m ≡ some x → j ≢ root_ino → (x.parent == ino) ≡ false)
    → (n j : ℕ) → (j == ino) ≡ false
    → Climbs m n j
    → Climbs m' n j
Climbs-without m m' ino at childless zero j other c = c
Climbs-without m m' ino at childless (suc n) j other (r, x, g, c) =
    (r, x, at j ∙ rw other g, Climbs-without m m' ino at childless n x.parent (childless j x g r) c)

-- The map with another entry for an inode, or none.
module _ (m m' : SortedMap Entry) (ino : ℕ) (tree : IsTree m) where
  module _ (e : Entry) (not_root : ino ≢ root_ino)
      (at : (j : ℕ) → SortedMap.get j m' ≡ (if j == ino then some e else SortedMap.get j m)) where
    elsewhere : (j : ℕ) → (j == ino) ≡ false → SortedMap.get j m' ≡ SortedMap.get j m
    elsewhere j other = at j ∙ rw other refl

    here : SortedMap.get ino m' ≡ some e
    here = ground (arith, at ino)

    root_other : (root_ino == ino) ≡ false
    root_other = ground (arith, not_root)

    -- The ways up of all entries, from those of the others and that of the parent.
    whole :
        ((j : ℕ)
          → (x : Entry) → SortedMap.get j m ≡ some x
          → (j == ino) ≡ false
          → (k : ℕ) × Climbs m' k j)
        → (n : ℕ) → Climbs m' n e.parent
        → IsDirectory m' e.parent
        → ((j : ℕ) (x : Entry)
            → SortedMap.get j m ≡ some x
            → j ≢ root_ino
            → (j == ino) ≡ false
            → IsDirectory m' x.parent)
        → IsTree m'
    whole others n up dir parents = record {
      root = let (r, g, k) = tree.root in (r, elsewhere root_ino root_other ∙ g, k);
      climbs = λ i x g. elim (Bool-cases (i == ino)) [
        | inl same ↦
            let i' : ino ≡ i = ground (arith, same) in
            subst (λ j. (k : ℕ) × Climbs m' k j) i' (suc n, (not_root, e, here, up))
        | inr other ↦ others i x (sym (elsewhere i other) ∙ g) other
      ];
      parents = λ i x g r. elim (Bool-cases (i == ino)) [
        | inl same ↦
            let x' : e ≡ x = ground (arith, g, same, at i) in
            subst (λ (y : Entry). IsDirectory m' y.parent) x' dir
        | inr other ↦ parents i x (sym (elsewhere i other) ∙ g) r other
      ];
    }

    -- A new inode: nothing that was there changes.
    module _ (new : SortedMap.get ino m ≡ none) (dir : IsDirectory m e.parent) where
      old : (j : ℕ) (x : Entry) → SortedMap.get j m ≡ some x → SortedMap.get j m' ≡ some x
      old j x g = ground (arith, at j, g, new)

      old-IsDirectory : (q : ℕ) → IsDirectory m q → IsDirectory m' q
      old-IsDirectory q (d, g, k) = (d, old q d g, k)

      old-Climbs : (n i : ℕ) → Climbs m n i → Climbs m' n i
      old-Climbs = Climbs-keep m m' (λ j x g. (x, old j x g, refl))

      pub insert-IsTree : IsTree m'
      insert-IsTree =
          let (d, g, k) = dir in
          let (n, up) = tree.climbs e.parent d g in
          whole (λ j x g _. let (l, c) = tree.climbs j x g in (l, old-Climbs l j c)) n
            (old-Climbs n e.parent up) (old-IsDirectory e.parent dir)
            (λ j x g r _. old-IsDirectory x.parent (tree.parents j x g r))

    -- An inode that was there keeps its kind, and moves below a directory that is not below it.
    module _ (before : Entry) (there : SortedMap.get ino m ≡ some before)
        (kind : e.kind ≡ before.kind) where
      same-IsDirectory : (q : ℕ) → IsDirectory m q → IsDirectory m' q
      same-IsDirectory q (d, g, k) = elim (Bool-cases (q == ino)) [
        | inl same ↦
            let d' : d ≡ before = ground (arith, g, there, same) in
            let q' : ino ≡ q = ground (arith, same) in
            (
              e,
              subst (λ j. SortedMap.get j m' ≡ some e) q' here,
              kind ∙ ap (λ (x : Entry). x.kind) (sym d') ∙ k,
            )
        | inr other ↦ (d, elsewhere q other ∙ g, k)
      ]

      module _ (n : ℕ) (up : Climbs m' n e.parent) where
        moved-Climbs : (k j : ℕ) → Climbs m k j → (l : ℕ) × Climbs m' l j
        moved-Climbs zero j c = (zero, c)
        moved-Climbs (suc k) j (r, x, g, c) = elim (Bool-cases (j == ino)) [
          | inl same ↦
              let j' : ino ≡ j = ground (arith, same) in
              subst (λ i. (l : ℕ) × Climbs m' l i) j' (suc n, (not_root, e, here, up))
          | inr other ↦
              let (l, rest) = moved-Climbs k x.parent c in
              (suc l, (r, x, elsewhere j other ∙ g, rest))
        ]

        moved : IsDirectory m e.parent → IsTree m'
        moved dir =
            whole (λ j x g _. let (k, c) = tree.climbs j x g in moved-Climbs k j c) n up
              (same-IsDirectory e.parent dir)
              (λ j x g r _. same-IsDirectory x.parent (tree.parents j x g r))

      -- The way up of the new parent does not pass the inode.
      pub move-IsTree :
          (n : ℕ) → Climbs (SortedMap.remove ino m) n e.parent → IsDirectory m e.parent → IsTree m'
      move-IsTree n aside dir =
          moved n
            (Climbs-keep (SortedMap.remove ino m) m'
              (λ j x g.
                let other : (j == ino) ≡ false = ground (arith, g, get-remove j ino m) in
                (x, elsewhere j other ∙ ground (arith, g, other, get-remove j ino m), refl))
              n e.parent aside)
            dir

  -- An inode without children is gone.
  module _ (not_root : ino ≢ root_ino)
      (at : (j : ℕ) → SortedMap.get j m' ≡ (if j == ino then none else SortedMap.get j m))
      (childless : (j : ℕ) (x : Entry)
        → SortedMap.get j m ≡ some x
        → j ≢ root_ino
        → (x.parent == ino) ≡ false) where
    left : (j : ℕ) → (j == ino) ≡ false → SortedMap.get j m' ≡ SortedMap.get j m
    left j other = at j ∙ rw other refl

    pub left-IsDirectory : (q : ℕ) → (q == ino) ≡ false → IsDirectory m q → IsDirectory m' q
    left-IsDirectory q other (d, g, k) = (d, left q other ∙ g, k)

    pub remove-IsTree : IsTree m'
    remove-IsTree = record {
      root = left-IsDirectory root_ino (ground (arith, not_root)) tree.root;
      climbs = λ i x g.
          let other : (i == ino) ≡ false = ground (arith, g, at i) in
          let (n, c) = tree.climbs i x (sym (left i other) ∙ g) in
          (n, Climbs-without m m' ino at childless n i other c);
      parents = λ i x g r.
          let other : (i == ino) ≡ false = ground (arith, g, at i) in
          let g' = sym (left i other) ∙ g in
          left-IsDirectory x.parent (childless i x g' r) (tree.parents i x g' r);
    }

-- An entry is replaced by one with the same parent and kind.
pub edit-IsTree :
    (m m' : SortedMap Entry)
    → ((j : ℕ) (x : Entry)
        → SortedMap.get j m ≡ some x
        → (y : Entry) × (SortedMap.get j m' ≡ some y) × (y.parent ≡ x.parent) × (y.kind ≡ x.kind))
    → ((j : ℕ) (y : Entry)
        → SortedMap.get j m' ≡ some y
        → (x : Entry) × (SortedMap.get j m ≡ some x) × (y.parent ≡ x.parent))
    → IsTree m
    → IsTree m'
edit-IsTree m m' there back tree =
    let dir : (q : ℕ) → IsDirectory m q → IsDirectory m' q =
      λ q d. let y = there q d.0 d.1 in (y.0, y.1, y.3 ∙ d.2) in
    record {
      root = dir root_ino tree.root;
      climbs = λ i y g.
          let x = back i y g in
          let c = tree.climbs i x.0 x.1 in
          (c.0, Climbs-keep m m' (λ j x g. let y = there j x g in (y.0, y.1, y.2)) c.0 i c.1);
      parents = λ i y g r.
          let x = back i y g in
          subst (IsDirectory m') (sym x.2) (dir (x.0).parent (tree.parents i x.0 x.1 r));
    }
