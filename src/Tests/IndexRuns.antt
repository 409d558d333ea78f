-- ===== src/Tests/IndexRuns.antt =====
-- The index with two files in the root directory.
use pqfs.Common.{ℕ, ◌≡◌, refl, Bytes, [], ◌∷◌, none, false, arith}
use pqfs.Common.SortedMap
use pqfs.Common.SortedMap.{get-nil}
use pqfs.Crypto.Keys.{same_bytes}
use pqfs.Index.Children
use pqfs.Index.Children.{same_name}
use pqfs.Index.Entry.{Entry, EntryKind}
use pqfs.Index.State.{Inner, siblings, link, unlink_previous, insert_entry, relink, renamed}
use pqfs.Index.Tables.{child, member}
use pqfs.Index.Invariant.{IsLinked}
use pqfs.Index.Updates.{IsInserted, insert_entry-IsLinked, relink-IsLinked}

abbrev pub nothing : Inner
nothing = record { entries = []; next_ino = 2; children = []; by_parent = []; dirty = false }

pub nothing-IsLinked : IsLinked nothing
unfolding SortedMap.get child Children.lookup member siblings
nothing-IsLinked = record {
  keyed = λ i e h. absurd (ground arith);
  named = λ i e h r. absurd (ground arith);
  listed = λ i e h r. absurd (ground arith);
  names = λ q h i c. absurd (ground arith);
  members = λ q i m. absurd (ground arith);
}

abbrev pub file : ℕ → Bytes → Entry
file ino hash = record {
  ino = ino;
  parent = 1;
  name_hash = hash;
  name_encrypted = hash;
  content_key = [];
  kind = EntryKind.file;
  size = 0;
  perm = 420;
  uid = 0;
  gid = 0;
  times = record { atime = 5; mtime = 5; ctime = 5; crtime = 5 };
  link_target = [];
}

abbrev one : Inner
one = insert_entry (file 2 (7 ∷ [])) nothing

one-IsInserted : IsInserted nothing (file 2 (7 ∷ [])) one
unfolding child Children.lookup
one-IsInserted =
    insert_entry-IsLinked nothing (file 2 (7 ∷ [])) nothing-IsLinked (λ h. absurd (omega arith))
      (λ i c. absurd (ground arith))

free : (h : Bytes) → same_bytes h (7 ∷ []) ≡ false → child one 1 h ≡ none
unfolding child insert_entry unlink_previous link Children.lookup Children.insert Children.remove
    same_name SortedMap.get
free h differ = rw differ

relink-IsLinked_example :
    IsInserted one
      (renamed 6 1 (8 ∷ []) (8 ∷ []) (file 2 (7 ∷ [])))
      (relink 6 2 1 (8 ∷ []) (8 ∷ []) one)
unfolding same_bytes
relink-IsLinked_example =
    relink-IsLinked 6 one 2 1 (8 ∷ []) (8 ∷ []) (file 2 (7 ∷ [])) one-IsInserted.0
      (λ h. absurd (omega arith)) (one-IsInserted.1 2)
      (λ i c. absurd (ground (arith, c, free (8 ∷ []) refl)))
