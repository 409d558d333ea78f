-- ===== src/Ops/Unlinking.antt =====
-- `unlink` and `rmdir` as operations on the name space: on every path the index stays well-formed, and after
-- a success the name leads to nothing and the others where they led.
use pqfs.Common.{
  ℕ, ◌≡◌, refl, sym, ap, subst, ◌∙◌, Bytes, none, some, Result, Bool-cases, Option-cases, inl, inr,
  if◌then◌else◌, enoent, eisdir, enotdir, enotempty,
}
use pqfs.Common.After.{After, After-err, After-bind, After-weaken}
use pqfs.Crypto.Primitives.{Primitives}
use pqfs.Crypto.Keys.{Crypto}
use pqfs.Index.Children.{same_name}
use pqfs.Index.Entry.{Entry}
use pqfs.Index.State.{Inner, remove_entry, has_children}
use pqfs.Index.Names.{find_child, hash_filename}
use pqfs.Index.Persist.{IndexCodec, Mount, save_index}
use pqfs.Index.WellFormed.{IsIndex, IsApart, child-found}
use pqfs.Index.Namespace.{remove_entry-IsIndex, find_child-remove}
use pqfs.Ops.Data.{as_eio}
use pqfs.Ops.Tree.{is_dir, drop_data, unlink, rmdir}
use pqfs.Ops.Removal.{drop_data_run}
use pqfs.Ops.Steps.{IsKept, state-After, save-After, IsFlagged-IsIndex, IsFlagged-find_child}

pub drop_data-After :
    (p : Primitives) (codec : IndexCodec) (crypto : Crypto) (ino : ℕ) (m : Mount)
    → After (λ _. IsKept m) (IsKept m) (drop_data ino m)
drop_data-After p codec crypto ino m =
    state-After (IsKept m) (drop_data ino m)
      (ap (λ (r : Result (Unit {0}) × Mount). r.1.inner) (drop_data_run p codec crypto ino m).1)

-- What the removal of a name gives.
pub record IsDropped (p : Primitives) (crypto : Crypto) (s : Inner) (parent : ℕ) (name : Bytes)
    (s' : Inner) : Type 0 where
  pub index : IsIndex p crypto s'
  pub found :
      (q : ℕ) (n : Bytes)
      → find_child p crypto q n s' ≡ (
          if same_name q (hash_filename p crypto n) parent (hash_filename p crypto name)
          then none
          else find_child p crypto q n s)

module _ (p : Primitives) (codec : IndexCodec) (crypto : Crypto) (parent : ℕ) (name : Bytes)
    (m : Mount) (index : IsIndex p crypto m.inner) (apart : IsApart p crypto m.inner name) where
  -- What the two handlers give.
  abbrev pub IsUnlinked : Result (Unit {0}) × Mount → Type 0
  IsUnlinked =
      After (λ _ m'. IsDropped p crypto m.inner parent name m'.inner)
        (λ m'. IsIndex p crypto m'.inner)

  module _ (e : Entry) (found : find_child p crypto parent name m.inner ≡ some e) where
    abbrev without : Inner
    without = (remove_entry e.ino m.inner).1

    without-IsIndex : IsIndex p crypto without
    without-IsIndex =
        let (_, there, _, _, not_root) =
          child-found p crypto m.inner index parent name apart e found in
        remove_entry-IsIndex p crypto m.inner index e not_root there

    -- The end of both: the index without the entry is saved.
    save_without :
        (m' : Mount) → m'.inner ≡ without → IsUnlinked (as_eio (save_index p codec crypto) m')
    save_without m' same =
        let (_, there, q', h', not_root) =
          child-found p crypto m.inner index parent name apart e found in
        let index' : IsIndex p crypto m'.inner =
          subst (IsIndex p crypto) (sym same) without-IsIndex in
        After-weaken (as_eio (save_index p codec crypto) m')
          (λ _ t f. record {
            index = IsFlagged-IsIndex p codec crypto m'.inner t index' f;
            found = λ q n.
                IsFlagged-find_child p codec crypto m'.inner t q n f
                ∙ ap (find_child p crypto q n) same
                ∙ find_child-remove p crypto m.inner index e not_root there q n
                ∙ rw (q', h');
          })
          (λ t f. IsFlagged-IsIndex p codec crypto m'.inner t index' f)
          (save-After p codec crypto m')

  -- In a well-formed index, under a name that collides with none, `unlink` keeps the index well-formed on every
  -- path. When it succeeds, the name leads to nothing, and every name with another parent or hash leads where
  -- it led.
  pub unlink-IsDropped : IsUnlinked (unlink p codec crypto parent name m)
  unfolding unlink
  unlink-IsDropped = elim (Option-cases (find_child p crypto parent name m.inner)) [
    | inl missing ↦ rw missing (After-err enoent m index)
    | inr (e, found) ↦ elim (Bool-cases (is_dir e.kind)) [
      | inl dir ↦ rw (found, dir) (After-err eisdir m index)
      | inr file ↦
          let start : Mount = record m { inner = without e found } in
          rw (found, file)
            (After-bind _ _
              (After-weaken (drop_data e.ino start) (λ _ t k. k)
                (λ t k. subst (IsIndex p crypto) (sym k) (without-IsIndex e found))
                (drop_data-After p codec crypto e.ino start))
              (λ _ t k. save_without e found t k))
    ]
  ]

  -- In a well-formed index, under a name that collides with none, `rmdir` keeps the index well-formed on every
  -- path. When it succeeds, the name leads to nothing, and every name with another parent or hash leads where
  -- it led.
  pub rmdir-IsDropped : IsUnlinked (rmdir p codec crypto parent name m)
  unfolding rmdir
  rmdir-IsDropped = elim (Option-cases (find_child p crypto parent name m.inner)) [
    | inl missing ↦ rw missing (After-err enoent m index)
    | inr (e, found) ↦ elim (Bool-cases (is_dir e.kind)) [
      | inr file ↦ rw (found, file) (After-err enotdir m index)
      | inl dir ↦ elim (Bool-cases (has_children e.ino m.inner)) [
        | inl children ↦ rw (found, dir, children) (After-err enotempty m index)
        | inr childless ↦
            rw (found, dir, childless)
              (save_without e found (record m { inner = without e found }) refl)
      ]
    ]
  ]
