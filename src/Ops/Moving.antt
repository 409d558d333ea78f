-- ===== src/Ops/Moving.antt =====
-- `rename` on the tree of entries: on every path they stay a tree.
use pqfs.Common.{
  ℕ, ◌≡◌, ◌≢◌, refl, sym, ap, subst, ◌∙◌, Bytes, true, false, ◌&&◌, some, Result, ok, Bool-cases,
  Option-cases, inl, inr, if◌then◌else◌, ◌==◌, enoent, enotdir, einval, arith,
}
use pqfs.Common.SortedMap
use pqfs.Common.SortedMap.{SortedMap, get-remove, get-insert}
use pqfs.Common.After.{After, After-ok, After-err, After-bind, After-weaken, After-lift}
use pqfs.Crypto.Primitives.{Primitives}
use pqfs.Crypto.Keys.{Crypto}
use pqfs.Crypto.Volume.Store.{with_draws}
use pqfs.Index.Entry.{Entry, EntryKind}
use pqfs.Index.State.{
  Inner, root_ino, remove_entry, relink, renamed, has_children, link, unlink_index,
}
use pqfs.Index.Invariant.{IsLinked}
use pqfs.Index.Updates.{remove_entry-IsLinked, relink-some}
use pqfs.Index.Names.{find_child, hash_filename, encrypt_filename}
use pqfs.Index.Persist.{IndexCodec, Mount, on_disk, save_index}
use pqfs.Index.Tree.{IsDirectory, IsTree}
use pqfs.Index.Tree.Changes.{move-IsTree, remove-IsTree, left-IsDirectory, Climbs-without}
use pqfs.Ops.Ancestors.{
  IsAside, IsChildless, is_descendant_of-decides, file-IsAside, file-IsChildless,
  has_children-IsChildless,
}
use pqfs.Ops.Data.{as_eio}
use pqfs.Ops.Tree.{is_dir, is_descendant_of, may_replace, drop_data, make_room, rename}
use pqfs.Ops.Removal.{find_child-Named}
use pqfs.Ops.Unlinking.{drop_data-After}
use pqfs.Ops.Steps.{IsKept, as_eio-After, on_disk-After, save-After, IsFlagged}

pub is_dir-true : (k : EntryKind) → is_dir k ≡ true → k ≡ EntryKind.dir
unfolding is_dir
is_dir-true EntryKind.dir h = refl
is_dir-true EntryKind.file h = absurd (ground (arith, h))
is_dir-true EntryKind.symlink h = absurd (ground (arith, h))

pub is_dir-false : (k : EntryKind) → is_dir k ≡ false → k ≢ EntryKind.dir
unfolding is_dir
is_dir-false k h same = absurd (ground (arith, h, same))

-- What `may_replace` lets be removed has no children.
may_replace-IsChildless :
    (s : Inner) (kind : EntryKind) (existing : Entry)
    → IsLinked s
    → IsTree s.entries
    → SortedMap.get existing.ino s.entries ≡ some existing
    → may_replace kind existing s ≡ ok tt
    → IsChildless existing.ino s.entries
unfolding may_replace
may_replace-IsChildless s kind existing linked tree there allowed =
    elim (Bool-cases (is_dir existing.kind)) [
      | inr file ↦
          file-IsChildless s.entries existing.ino existing tree there
            (is_dir-false existing.kind file)
      | inl dir ↦ elim (Bool-cases (has_children existing.ino s)) [
        | inr childless ↦ has_children-IsChildless s existing.ino linked childless
        | inl children ↦ absurd (ground (arith, allowed, dir, children))
      ]
    ]

-- The map after `relink`.
relink-entries :
    (now : ℕ) (s : Inner) (ino q : ℕ) (h blob : Bytes) (e : Entry)
    → SortedMap.get ino s.entries ≡ some e
    → (j : ℕ)
    → SortedMap.get j (relink now ino q h blob s).entries
      ≡ (if j == ino then some (renamed now q h blob e) else SortedMap.get j s.entries)
unfolding link unlink_index
relink-entries now s ino q h blob e there j =
    rw (relink-some now s ino q h blob e there)
      (get-insert j ino (renamed now q h blob e) s.entries)

module _ (p : Primitives) (codec : IndexCodec) (crypto : Crypto) (m : Mount)
    (linked : IsLinked m.inner) (tree : IsTree (m.inner).entries) (parent : ℕ) (name : Bytes)
    (newparent : ℕ) (newname : Bytes) where
  abbrev entries : Mount → SortedMap Entry
  entries t = (t.inner).entries

  -- The entries are a tree in which the source may move below the new parent.
  record IsOpen (source : Entry) (t : Mount) : Type 0 where
    whole : IsTree (entries t)
    there : SortedMap.get source.ino (entries t) ≡ some source
    not_root : source.ino ≢ root_ino
    dir : IsDirectory (entries t) newparent
    n : ℕ
    aside : IsAside (entries t) n newparent source.ino

  IsKept-IsOpen : (source : Entry) (t t' : Mount) → IsKept t t' → IsOpen source t → IsOpen source t'
  IsKept-IsOpen source t t' k o =
      let kept : entries t ≡ entries t' = ap (λ (s : Inner). s.entries) (sym k) in
      record {
        whole = subst IsTree kept o.whole;
        there =
            subst (λ (es : SortedMap Entry). SortedMap.get source.ino es ≡ some source) kept
              o.there;
        not_root = o.not_root;
        dir = subst (λ (es : SortedMap Entry). IsDirectory es newparent) kept o.dir;
        n = o.n;
        aside = subst (λ (es : SortedMap Entry). IsAside es o.n newparent source.ino) kept o.aside;
      }

  beside-IsAside :
      (source : Entry)
      → ((e : Entry) × (SortedMap.get newparent (m.inner).entries ≡ some e))
      → is_descendant_of newparent source.ino m.inner ≡ false
      → (n : ℕ) × IsAside (m.inner).entries n newparent source.ino
  beside-IsAside source (target, there) apart =
      elim (is_descendant_of-decides m.inner newparent source.ino target tree there) [
        | inl (below, _) ↦ absurd (ground (arith, below, apart))
        | inr (_, _, n, aside) ↦ (n, aside)
      ]

  -- The guards of `rename` are passed.
  passed :
      (source target : Entry)
      → find_child p crypto parent name m.inner ≡ some source
      → SortedMap.get newparent (m.inner).entries ≡ some target
      → is_dir target.kind ≡ true
      → (is_dir source.kind && is_descendant_of newparent source.ino m.inner) ≡ false
      → IsOpen source m
  passed source target found there dir beside =
      let (at, _, not_root) =
        find_child-Named p codec crypto m.inner parent name source linked found in
      let d : IsDirectory (m.inner).entries newparent =
        (target, there, is_dir-true target.kind dir) in
      let up : (n : ℕ) × IsAside (m.inner).entries n newparent source.ino =
        elim (Bool-cases (is_dir source.kind)) [
          | inl yes_dir ↦
              let apart : is_descendant_of newparent source.ino m.inner ≡ false =
                ground (arith, beside, yes_dir) in
              beside-IsAside source (target, there) apart
          | inr file ↦
              let c = tree.climbs newparent target there in
              (
                c.0,
                file-IsAside (m.inner).entries source.ino source c.0 newparent tree at
                    (is_dir-false source.kind file) d c.1,
              )
        ] in
      record { whole = tree; there = at; not_root = not_root; dir = d; n = up.0; aside = up.1 }

  -- What is removed to make room has the new parent, and no children.
  removed :
      (source existing : Entry)
      → find_child p crypto newparent newname m.inner ≡ some existing
      → (existing.ino == source.ino) ≡ false
      → may_replace source.kind existing m.inner ≡ ok tt
      → IsOpen source m
      → IsOpen source (record m { inner = (remove_entry existing.ino m.inner).1 })
  removed source existing found other allowed o =
      let (at, q, not_root) =
        find_child-Named p codec crypto m.inner newparent newname existing linked found in
      let es = (m.inner).entries in
      let es' = ((remove_entry existing.ino m.inner).1).entries in
      let gone = (remove_entry-IsLinked m.inner existing.ino linked not_root).2 in
      let childless = may_replace-IsChildless m.inner source.kind existing linked tree at allowed in
      let stays : (newparent == existing.ino) ≡ false =
        ap (λ j. j == existing.ino) (sym q) ∙ childless existing.ino existing at not_root in
      let distinct : (source.ino == existing.ino) ≡ false = ground (arith, other) in
      record {
        whole = remove-IsTree es es' existing.ino tree not_root gone childless;
        there = gone source.ino ∙ rw distinct o.there;
        not_root = o.not_root;
        dir =
            left-IsDirectory es es' existing.ino tree not_root gone childless newparent stays o.dir;
        n = o.n;
        aside =
            Climbs-without (SortedMap.remove source.ino es) (SortedMap.remove source.ino es')
              existing.ino
              (λ j. ground (arith, get-remove j source.ino es, get-remove j source.ino es', gone j))
              (λ j x g r. childless j x (ground (arith, g, get-remove j source.ino es)) r) o.n
              newparent stays o.aside;
      }

  -- Whatever came of it, the entries are a tree.
  abbrev pub Stays : Result (Unit {0}) × Mount → Type 0
  Stays = After (λ _ m'. IsTree (m'.inner).entries) (λ m'. IsTree (m'.inner).entries)

  make_room-IsOpen :
      (source : Entry)
      → IsOpen source m
      → After
          (λ _. IsOpen source)
          (λ m'. IsTree (m'.inner).entries)
          (make_room p codec crypto source newparent newname m)
  unfolding make_room
  make_room-IsOpen source o = elim (Option-cases (find_child p crypto newparent newname m.inner)) [
    | inl missing ↦ rw (missing, make_room) (After-ok tt m o)
    | inr (existing, found) ↦ elim (Bool-cases (existing.ino == source.ino)) [
      | inl own ↦ rw (found, own, make_room) (After-ok tt m o)
      | inr other ↦
          let start : Mount = record m { inner = (remove_entry existing.ino m.inner).1 } in
          rw (found, other, make_room)
            (After-bind _ _
              (After-lift {Q = λ _ t. (t ≡ m) × (may_replace source.kind existing m.inner ≡ ok tt)}
                (may_replace source.kind existing m.inner) m (λ _ allowed. (refl, allowed)) tree)
              (λ _ t (same, allowed).
                subst
                  (λ t.
                    After (λ _. IsOpen source) (λ m'. IsTree (m'.inner).entries)
                      (drop_data existing.ino
                        (record t { inner = (remove_entry existing.ino t.inner).1 })))
                  (sym same)
                  (let o' = removed source existing found other allowed o in
                    After-weaken (drop_data existing.ino start)
                      (λ _ t k. IsKept-IsOpen source start t k o')
                      (λ t k. (IsKept-IsOpen source start t k o').whole)
                      (drop_data-After p codec crypto existing.ino start))))
    ]
  ]

  -- The end of `rename`.
  relinked :
      (clock : ℕ) (source : Entry) (t : Mount) (blob : Bytes)
      → IsOpen source t
      → Stays (
          as_eio (save_index p codec crypto) (record t {
            inner = relink clock source.ino newparent (hash_filename p crypto newname) blob t.inner;
          }))
  unfolding renamed
  relinked clock source t blob o =
      let hash = hash_filename p crypto newname in
      let e = renamed clock newparent hash blob source in
      let start : Mount = record t {
        inner = relink clock source.ino newparent hash blob t.inner;
      } in
      let whole : IsTree (start.inner).entries =
        move-IsTree (entries t) (start.inner).entries source.ino o.whole e o.not_root
          (relink-entries clock t.inner source.ino newparent hash blob source o.there) source
          o.there refl o.n o.aside o.dir in
      let kept = λ (t' : Mount) (f : IsFlagged start.inner t').
        subst (λ (s : Inner). IsTree s.entries) (sym f.1) whole in
      After-weaken (as_eio (save_index p codec crypto) start) (λ _ t' f. kept t' f) kept
        (save-After p codec crypto start)

  encrypted :
      (source : Entry) (t : Mount)
      → IsOpen source t
      → After
          (λ _. IsOpen source)
          (λ m'. IsTree (m'.inner).entries)
          (as_eio (on_disk (with_draws (encrypt_filename p crypto newname))) t)
  encrypted source t o =
      After-weaken _ (λ _ t' k. IsKept-IsOpen source t t' k o)
        (λ t' k. (IsKept-IsOpen source t t' k o).whole)
        (as_eio-After (on_disk (with_draws (encrypt_filename p crypto newname))) t
          (on_disk-After (with_draws (encrypt_filename p crypto newname)) t))

  -- In an index with right tables whose entries are a tree, `rename` leaves a tree on every path, errors
  -- included: each entry's parent is a directory, and the way up from each leads to the root.
  pub rename-IsTree :
      (clock : ℕ) → Stays (rename p codec crypto clock parent name newparent newname m)
  unfolding rename
  rename-IsTree clock = elim (Option-cases (find_child p crypto parent name m.inner)) [
    | inl missing ↦ rw missing (After-err enoent m tree)
    | inr (source, found) ↦ elim (Option-cases (SortedMap.get newparent (m.inner).entries)) [
      | inl missing ↦ rw (found, missing) (After-err enoent m tree)
      | inr (target, there) ↦ elim (Bool-cases (is_dir target.kind)) [
        | inr file ↦ rw (found, there, file) (After-err enotdir m tree)
        | inl dir ↦
            elim (Bool-cases
              (is_dir source.kind && is_descendant_of newparent source.ino m.inner)) [
                | inl below ↦ rw (found, there, dir, below) (After-err einval m tree)
                | inr beside ↦
                    rw (found, there, dir, beside)
                      (After-bind _ _
                        (make_room-IsOpen source (passed source target found there dir beside))
                        (λ _ m₁ o₁.
                          After-bind _ _ (encrypted source m₁ o₁)
                            (λ blob m₂ o₂. relinked clock source m₂ blob o₂)))
              ]
      ]
    ]
  ]
