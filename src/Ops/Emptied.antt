-- ===== src/Ops/Emptied.antt =====
-- What `rmdir` of src/fs/ops.rs removes: an empty directory, and nothing else.
use pqfs.Common.{
  ℕ, ◌+◌, ◌^◌, ◌≤◌, ◌≡◌, ◌≢◌, refl, Bytes, length, some, true, false, Result, ok, err, Bool-cases,
  inl, inr, enotdir, enotempty,
}
use pqfs.Crypto.Primitives.{Primitives, IsSound}
use pqfs.Crypto.Keys.{Crypto}
use pqfs.Index.Entry.{Entry, EntryKind}
use pqfs.Index.State.{Inner, has_children, remove_entry}
use pqfs.Index.Names.{find_child}
use pqfs.Index.Persist.{IndexCodec, Mount}
use pqfs.Index.Saved.{save_index_total}
use pqfs.Index.Invariant.{IsLinked, Listed}
use pqfs.Index.Tables.{has_children-member}
use pqfs.Index.WellFormed.{IsIndex, IsApart}
use pqfs.Ops.Tree.{is_dir, rmdir}
use pqfs.Ops.Ancestors.{IsChildless, has_children-IsChildless}
use pqfs.Ops.Moving.{is_dir-true, is_dir-false}
use pqfs.Ops.Unlinking.{IsDropped, rmdir-IsDropped}

-- A directory that has children by the tables is the parent of an entry.
has_children-Listed :
    (s : Inner) (a : ℕ) → IsLinked s → has_children a s ≡ true → (i : ℕ) × Listed s.entries i a
has_children-Listed s a linked h =
    let (i, at) = has_children-member s a h in (i, linked.members a i at)

-- What `rmdir` gives where the name leads to an entry: an empty directory is removed; anything else stays, and the
-- error says why.
pub data IsAnswered (p : Primitives) (crypto : Crypto) (parent : ℕ) (name : Bytes) (m : Mount)
    (e : Entry) : Result (Unit {0}) × Mount → Type 0 where
  removed :
      (m' : Mount)
      → e.kind ≡ EntryKind.dir
      → IsChildless e.ino (m.inner).entries
      → IsDropped p crypto m.inner parent name m'.inner
      → IsAnswered p crypto parent name m e (ok tt, m')
  no_dir : e.kind ≢ EntryKind.dir → IsAnswered p crypto parent name m e (err enotdir, m)
  not_empty :
      e.kind ≡ EntryKind.dir
      → (i : ℕ) → Listed (m.inner).entries i e.ino
      → IsAnswered p crypto parent name m e (err enotempty, m)

module _ (p : Primitives) (sound : IsSound p) (codec : IndexCodec) (crypto : Crypto) where
  -- In a well-formed index, with a sound cipher, a key of 32 bytes, and a backend that can still be changed three
  -- times, under a name that collides with none and leads to an entry, where the entries without it fit a message
  -- of the cipher: if the entry is a directory and the parent of no entry below the root, `rmdir` succeeds, the
  -- index stays well-formed, the name leads to nothing, and every name with another parent or hash leads where it
  -- led. If it is no directory, or if it is the parent of such an entry, `rmdir` says so and changes nothing.
  pub rmdir-IsAnswered :
      (parent : ℕ) (name : Bytes) (m : Mount) (n : ℕ) (e : Entry)
      → IsIndex p crypto m.inner
      → IsApart p crypto m.inner name
      → find_child p crypto parent name m.inner ≡ some e
      → length crypto.cipher ≡ 32
      → (m.backend).power ≡ n + 3
      → length (codec.serialize (remove_entry e.ino m.inner).1.entries) ≤ 2 ^ 37
      → IsAnswered p crypto parent name m e (rmdir p codec crypto parent name m)
  rmdir-IsAnswered parent name m n e index apart found cipher power fits =
      elim (Bool-cases (is_dir e.kind)) [
        | inr file ↦ unfold rmdir in rw (found, file) (IsAnswered.no_dir (is_dir-false e.kind file))
        | inl dir ↦ elim (Bool-cases (has_children e.ino m.inner)) [
          | inl children ↦
              let (i, child) = has_children-Listed m.inner e.ino index.linked children in
              unfold rmdir in
              rw (found, dir, children) (IsAnswered.not_empty (is_dir-true e.kind dir) i child)
          | inr childless ↦
              let without : Mount = record m { inner = (remove_entry e.ino m.inner).1 } in
              let r = save_index_total p codec sound crypto without n cipher power fits in
              let m' : Mount = record {
                inner = record (without.inner) { dirty = false };
                backend = r.after;
              } in
              let runs : rmdir p codec crypto parent name m ≡ (ok tt, m') =
                unfold rmdir in rw (found, dir, childless) (rw r.runs refl) in
              rw runs (
                IsAnswered.removed m' (is_dir-true e.kind dir)
                  (has_children-IsChildless m.inner e.ino index.linked childless)
                  ((rmdir-IsDropped p codec crypto parent name m index apart).good tt m' runs))
        ]
      ]
