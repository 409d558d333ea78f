-- ===== src/Ops/Rooted.antt =====
-- The handlers that add and remove entries, on the tree of entries: on every path they stay a tree.
use pqfs.Common.{
  ℕ, ◌≡◌, refl, sym, ap, subst, ◌∙◌, Bytes, some, Result, Bool-cases, Option-cases, inl, inr,
  enoent, eexist, enotdir, eisdir, enotempty, arith,
}
use pqfs.Common.SortedMap
use pqfs.Common.SortedMap.{SortedMap, get-insert}
use pqfs.Common.Exec.{Exec}
use pqfs.Common.After.{After, After-ok, After-err, After-bind, After-weaken}
use pqfs.Crypto.Primitives.{Primitives}
use pqfs.Crypto.Keys.{Crypto, random_key}
use pqfs.Crypto.Aead.{encrypt}
use pqfs.Crypto.Volume.Store.{with_draws}
use pqfs.Index.Entry.{Entry}
use pqfs.Index.State.{Inner, allocate_ino, insert_entry, remove_entry, has_children}
use pqfs.Index.Updates.{remove_entry-IsLinked}
use pqfs.Index.Names.{find_child, encrypt_filename, attr_for}
use pqfs.Index.Persist.{IndexCodec, Mount, on_disk, save_index}
use pqfs.Index.Tree.{IsDirectory, IsTree}
use pqfs.Index.Tree.Changes.{insert-IsTree, remove-IsTree}
use pqfs.Index.WellFormed.{IsIndex}
use pqfs.Index.Namespace.{next-new}
use pqfs.Ops.Ancestors.{IsChildless, file-IsChildless, has_children-IsChildless}
use pqfs.Ops.Data.{as_eio}
use pqfs.Ops.Evolution.{insert_entry-entries}
use pqfs.Ops.Moving.{is_dir-false}
use pqfs.Ops.Removal.{find_child-Named}
use pqfs.Ops.Steps.{IsKept, IsFlagged, as_eio-After, on_disk-After, save-After}
use pqfs.Ops.Tree.{
  Caller, is_dir, is_taken, drop_data, insert_saved, create, mkdir, symlink, unlink, rmdir,
}
use pqfs.Ops.Unlinking.{drop_data-After}

-- The entries are a tree, whatever came of the computation.
abbrev pub Whole : Mount → Type 0
Whole m = IsTree (m.inner).entries

abbrev pub StaysWhole : {A : Type 0} → Result A × Mount → Type 0
StaysWhole = After (λ _. Whole) Whole

module _ (p : Primitives) (codec : IndexCodec) (crypto : Crypto) where
  kept-Whole : (m m' : Mount) → IsKept m m' → Whole m → Whole m'
  kept-Whole m m' k = subst (λ (s : Inner). IsTree s.entries) (sym k)

  saved : (m : Mount) → Whole m → StaysWhole (as_eio (save_index p codec crypto) m)
  saved m h =
      let flagged = λ (m' : Mount) (f : IsFlagged m.inner m').
        subst (λ (s : Inner). IsTree s.entries) (sym f.1) h in
      After-weaken (as_eio (save_index p codec crypto) m) (λ _ m' f. flagged m' f) flagged
        (save-After p codec crypto m)

  -- Once a number is allocated, an entry with it in a directory is inserted and saved.
  module _ (s : Inner) (index : IsIndex p crypto s) (tree : IsTree s.entries) (parent : ℕ)
      (dir : IsDirectory s.entries parent) where
    abbrev IsAllocated : Mount → Type 0
    IsAllocated m = m.inner ≡ (allocate_ino s).1

    allocated-Whole : (m : Mount) → IsAllocated m → Whole m
    unfolding allocate_ino
    allocated-Whole m h = subst (λ (x : Inner). IsTree x.entries) (sym h) tree

    disk_step :
        {A : Type 0} (x : Exec Mount A) (m : Mount)
        → IsAllocated m
        → After (λ _. IsKept m) (IsKept m) (x m)
        → After (λ _. IsAllocated) Whole (x m)
    disk_step x m h k = After-weaken (x m) (λ _ m' k. k ∙ h) (λ m' k. allocated-Whole m' (k ∙ h)) k

    name_step :
        (name : Bytes) (m : Mount)
        → IsAllocated m
        → After
            (λ _. IsAllocated)
            Whole
            (as_eio (on_disk (with_draws (encrypt_filename p crypto name))) m)
    name_step name m h =
        disk_step (as_eio (on_disk (with_draws (encrypt_filename p crypto name)))) m h (
          as_eio-After (on_disk (with_draws (encrypt_filename p crypto name))) m
            (on_disk-After (with_draws (encrypt_filename p crypto name)) m))

    inserted :
        (e : Entry) (m : Mount)
        → IsAllocated m
        → e.ino ≡ s.next_ino
        → e.parent ≡ parent
        → StaysWhole (insert_saved p codec crypto e m)
    unfolding insert_saved allocate_ino
    inserted e m h own up =
        let (entries, _) = insert_entry-entries m.inner e in
        let same : (m.inner).entries ≡ s.entries = ap (λ (x : Inner). x.entries) h in
        let whole : IsTree (insert_entry e m.inner).entries =
          insert-IsTree s.entries (insert_entry e m.inner).entries e.ino tree e
            (λ r. omega (arith, r, own, index.root_below))
            (λ j.
              ap (SortedMap.get j) (entries ∙ ap (SortedMap.insert e.ino e) same)
              ∙ get-insert j e.ino e s.entries)
            (ap (λ i. SortedMap.get i s.entries) own ∙ next-new p crypto s index)
            (subst (IsDirectory s.entries) (sym up) dir) in
        After-bind _ _ (saved (record m { inner = insert_entry e m.inner }) whole)
          (λ _ m' w. After-ok (attr_for e) m' w)

  module _ (m : Mount) (index : IsIndex p crypto m.inner) (tree : Whole m) (parent : ℕ)
      (name : Bytes) where
    module _ (caller : Caller) (dir : IsDirectory (m.inner).entries parent) where
      abbrev begun : Mount
      begun = record m { inner = (allocate_ino m.inner).1 }

      pub create-IsTree : (mode : ℕ) → StaysWhole (create p codec crypto caller parent name mode m)
      unfolding create allocate_ino
      create-IsTree mode = elim (Bool-cases (is_taken p codec crypto parent name m.inner)) [
        | inl taken ↦ rw taken (After-err eexist m tree)
        | inr free ↦ rw free (
            After-bind _ _ (name_step m.inner index tree parent dir name begun refl) (λ blob m₁ h₁.
              After-bind _ _
                (disk_step m.inner index tree parent dir (on_disk (with_draws (random_key p))) m₁ h₁
                  (on_disk-After (with_draws (random_key p)) m₁))
                (λ key m₂ h₂.
                  After-bind _ _
                    (disk_step m.inner index tree parent dir
                      (as_eio (on_disk (with_draws (encrypt p crypto.cipher key)))) m₂ h₂
                      (as_eio-After (on_disk (with_draws (encrypt p crypto.cipher key))) m₂
                        (on_disk-After (with_draws (encrypt p crypto.cipher key)) m₂)))
                    (λ content_key m₃ h₃.
                      inserted m.inner index tree parent dir _ m₃ h₃ refl refl))))
      ]

      pub mkdir-IsTree : (mode : ℕ) → StaysWhole (mkdir p codec crypto caller parent name mode m)
      unfolding mkdir allocate_ino
      mkdir-IsTree mode = elim (Bool-cases (is_taken p codec crypto parent name m.inner)) [
        | inl taken ↦ rw taken (After-err eexist m tree)
        | inr free ↦ rw free (
            After-bind _ _ (name_step m.inner index tree parent dir name begun refl)
              (λ blob m₁ h₁. inserted m.inner index tree parent dir _ m₁ h₁ refl refl))
      ]

      pub symlink-IsTree :
          (target : Bytes) → StaysWhole (symlink p codec crypto caller parent name target m)
      unfolding symlink allocate_ino
      symlink-IsTree target = elim (Bool-cases (is_taken p codec crypto parent name m.inner)) [
        | inl taken ↦ rw taken (After-err eexist m tree)
        | inr free ↦ rw free (
            After-bind _ _
              (After-weaken _ (λ _ m' k. k) (λ m' k. kept-Whole m m' k tree)
                (as_eio-After (on_disk (with_draws (encrypt_filename p crypto target))) m
                  (on_disk-After (with_draws (encrypt_filename p crypto target)) m)))
              (λ link_target m₀ h₀.
                let start : Mount = record m₀ { inner = (allocate_ino m₀.inner).1 } in
                After-bind _ _
                  (name_step m.inner index tree parent dir name start
                    (ap (λ s. (allocate_ino s).1) h₀))
                  (λ blob m₁ h₁.
                    inserted m.inner index tree parent dir _ m₁ h₁
                      (ap (λ (s : Inner). s.next_ino) h₀) refl)))
      ]

    -- An entry without children is gone.
    removed :
        (e : Entry) (m' : Mount)
        → find_child p crypto parent name m.inner ≡ some e
        → IsChildless e.ino (m.inner).entries
        → m'.inner ≡ (remove_entry e.ino m.inner).1
        → Whole m'
    removed e m' found childless same =
        let (_, _, not_root) =
          find_child-Named p codec crypto m.inner parent name e index.linked found in
        subst (λ (s : Inner). IsTree s.entries) (sym same)
          (remove-IsTree (m.inner).entries ((remove_entry e.ino m.inner).1).entries e.ino tree
            not_root (remove_entry-IsLinked m.inner e.ino index.linked not_root).2 childless)

    pub unlink-IsTree : StaysWhole (unlink p codec crypto parent name m)
    unfolding unlink
    unlink-IsTree = elim (Option-cases (find_child p crypto parent name m.inner)) [
      | inl missing ↦ rw missing (After-err enoent m tree)
      | inr (e, found) ↦ elim (Bool-cases (is_dir e.kind)) [
        | inl dir ↦ rw (found, dir) (After-err eisdir m tree)
        | inr file ↦
            let start : Mount = record m { inner = (remove_entry e.ino m.inner).1 } in
            let there =
              (find_child-Named p codec crypto m.inner parent name e index.linked found).0 in
            let gone = λ (m' : Mount) (k : IsKept start m').
              removed e m' found
                (file-IsChildless (m.inner).entries e.ino e tree there (is_dir-false e.kind file))
                k in
            rw (found, file)
              (After-bind _ _
                (After-weaken (drop_data e.ino start) (λ _ t k. gone t k) gone
                  (drop_data-After p codec crypto e.ino start))
                (λ _ t w. saved t w))
      ]
    ]

    pub rmdir-IsTree : StaysWhole (rmdir p codec crypto parent name m)
    unfolding rmdir
    rmdir-IsTree = elim (Option-cases (find_child p crypto parent name m.inner)) [
      | inl missing ↦ rw missing (After-err enoent m tree)
      | inr (e, found) ↦ elim (Bool-cases (is_dir e.kind)) [
        | inr file ↦ rw (found, file) (After-err enotdir m tree)
        | inl dir ↦ elim (Bool-cases (has_children e.ino m.inner)) [
          | inl children ↦ rw (found, dir, children) (After-err enotempty m tree)
          | inr childless ↦
              let start : Mount = record m { inner = (remove_entry e.ino m.inner).1 } in
              rw (found, dir, childless)
                (saved start (
                  removed e start found
                    (has_children-IsChildless m.inner e.ino index.linked childless) refl))
        ]
      ]
    ]
