-- ===== src/Index/Updates.antt =====
-- `insert_entry`, `remove_entry` and `relink` keep the tables equal to the entries.
use pqfs.Common.{
  ℕ, ◌≡◌, ◌≢◌, refl, sym, ◌∙◌, ap, Bytes, false, Option, none, some, arith, ◌==◌, if◌then◌else◌,
  Option-cases, inl, inr, subst,
}
use pqfs.Common.SortedMap
use pqfs.Common.SortedMap.{SortedMap, get-insert, get-remove}
use pqfs.Index.Entry.{Entry}
use pqfs.Index.State.{
  Inner, root_ino, siblings, link, unlink_index, insert_entry, unlink_previous, remove_entry,
  relink, renamed,
}
use pqfs.Index.Tables.{child}
use pqfs.Index.Changes.{whole, but_entries, IsLinked-again}
use pqfs.Index.Invariant.{IsLinked, IsLinkedBut, but_absent, but_unlinked, apart, child-apart}

-- A name that is free, or that leads to the inode itself, is free once the inode is unlinked.
free_apart :
    (s : Inner) (ino q : ℕ) (h : Bytes) (s' : Inner)
    → IsLinkedBut ino s'
    → ((i : ℕ) → child s q h ≡ some i → i ≡ ino)
    → ((i : ℕ) → child s' q h ≡ some i → child s q h ≡ some i)
    → child s' q h ≡ none
free_apart s ino q h s' but free kept = elim (Option-cases (child s' q h)) [
  | inl missing ↦ missing
  | inr (i, found) ↦ absurd ((but.names q h i found).1 (free i (kept i found)))
]

kept_apart :
    (s : Inner) (linked : IsLinked s) (ino : ℕ) (e : Entry)
    (present : SortedMap.get ino s.entries ≡ some e) (not_root : ino ≢ root_ino) (q : ℕ) (h : Bytes)
    (i : ℕ)
    → child (apart s linked ino e present not_root) q h ≡ some i
    → child s q h ≡ some i
kept_apart s linked ino e present not_root q h i c =
    ground (arith, c, child-apart s linked ino e present not_root q h)

remove_entry-none :
    (s : Inner) (ino : ℕ) → SortedMap.get ino s.entries ≡ none → remove_entry ino s ≡ (none, s)
unfolding remove_entry
remove_entry-none s ino missing = rw (missing, remove_entry)

pub remove_entry-some :
    (s : Inner) (ino : ℕ) (e : Entry)
    → SortedMap.get ino s.entries ≡ some e
    → remove_entry ino s ≡ (
      some e,
      record (unlink_index ino e.parent e.name_hash s) { entries = SortedMap.remove ino s.entries },
    )
unfolding remove_entry unlink_index
remove_entry-some s ino e present = rw (present, remove_entry)

-- What `remove_entry` gives.
abbrev pub IsRemoved : Inner → ℕ → Option Entry × Inner → Type 0
IsRemoved s ino r =
    IsLinked r.1
    × (r.0 ≡ SortedMap.get ino s.entries)
    × ((j : ℕ)
        → SortedMap.get j r.1.entries ≡ (if j == ino then none else SortedMap.get j s.entries))

-- In an index with right tables, removing an inode other than the root gives back its entry, if it has one, takes it out of the
-- entries and leaves the others, and keeps both tables equal to the entries.
pub remove_entry-IsLinked :
    (s : Inner) (ino : ℕ) → IsLinked s → ino ≢ root_ino → IsRemoved s ino (remove_entry ino s)
remove_entry-IsLinked s ino linked not_root = elim (Option-cases (SortedMap.get ino s.entries)) [
  | inl missing ↦ rw (remove_entry-none s ino missing) (
    linked,
    sym missing,
    λ j. ground (arith, missing, ap (λ k. SortedMap.get k s.entries) {x = j} {y = ino}),
  )
  | inr (e, present) ↦ rw (remove_entry-some s ino e present) (
    whole ino _
        (but_entries ino (unlink_index ino e.parent e.name_hash s)
          (but_unlinked s linked ino e present not_root) (SortedMap.remove ino s.entries) none
          (λ x absurd_eq. absurd (ground arith))
          (λ j. unfold unlink_index in get-remove j ino s.entries))
        (ground (arith, get-remove ino ino s.entries)),
    sym present,
    λ j. get-remove j ino s.entries,
  )
]

-- Once its old links are undone, an entry is linked under its name.
relinked :
    (s' : Inner) (e : Entry)
    → IsLinkedBut e.ino s'
    → e.ino ≢ root_ino
    → child s' e.parent e.name_hash ≡ none
    → IsLinked (
        link e.ino e.parent e.name_hash
          (record s' { entries = SortedMap.insert e.ino e s'.entries }))
relinked s' e but not_root free =
    let entries = SortedMap.insert e.ino e s'.entries in
    IsLinked-again e.ino (record s' { entries = entries })
      (but_entries e.ino s' but entries (some e)
        (λ x same. let x' : x ≡ e = ground (arith, same) in ap (λ (y : Entry). y.ino) x')
        (λ j. get-insert j e.ino e s'.entries))
      e (ground (arith, get-insert e.ino e.ino e s'.entries)) not_root (unfold child in free)

-- What `insert_entry` gives.
abbrev pub IsInserted : Inner → Entry → Inner → Type 0
IsInserted s e s' =
    IsLinked s'
    × ((j : ℕ)
        → SortedMap.get j s'.entries ≡ (if j == e.ino then some e else SortedMap.get j s.entries))

inserted :
    (s : Inner) (e : Entry)
    → e.ino ≢ root_ino
    → insert_entry e s
      ≡ let s' = unlink_previous e.ino (SortedMap.get e.ino s.entries) s in
        link e.ino e.parent e.name_hash
          (record s' { entries = SortedMap.insert e.ino e s'.entries })
unfolding insert_entry link siblings
inserted s e not_root = let other : (e.ino == root_ino) ≡ false = ground arith in rw other

-- The insertion, by the entry that the inode had before.
IsInserted-over :
    (s : Inner) (e : Entry) (before : Option Entry)
    → IsLinked s
    → e.ino ≢ root_ino
    → ((i : ℕ) → child s e.parent e.name_hash ≡ some i → i ≡ e.ino)
    → SortedMap.get e.ino s.entries ≡ before
    → let s' = unlink_previous e.ino before s in
      IsInserted s e (
        link e.ino e.parent e.name_hash
          (record s' { entries = SortedMap.insert e.ino e s'.entries }))
unfolding unlink_previous link
IsInserted-over s e none linked not_root free missing =
    let but = but_absent s linked e.ino missing in
    (
      relinked s e but not_root (free_apart s e.ino e.parent e.name_hash s but free (λ i c. c)),
      λ j. get-insert j e.ino e s.entries,
    )
IsInserted-over s e (some old) linked not_root free present =
    let but = but_unlinked s linked e.ino old present not_root in
    let s' = apart s linked e.ino old present not_root in
    (
      relinked s' e but not_root (
          free_apart s e.ino e.parent e.name_hash s' but free
            (kept_apart s linked e.ino old present not_root e.parent e.name_hash)),
      λ j. unfold unlink_index in get-insert j e.ino e s.entries,
    )

-- In an index with right tables, inserting an entry other than the root puts it into the entries and leaves
-- the others, and keeps both tables equal to the entries, if its name is free or was its own.
pub insert_entry-IsLinked :
    (s : Inner) (e : Entry)
    → IsLinked s
    → e.ino ≢ root_ino
    → ((i : ℕ) → child s e.parent e.name_hash ≡ some i → i ≡ e.ino)
    → IsInserted s e (insert_entry e s)
insert_entry-IsLinked s e linked not_root free =
    rw (inserted s e not_root)
      (IsInserted-over s e (SortedMap.get e.ino s.entries) linked not_root free refl)

pub relink-some :
    (now : ℕ) (s : Inner) (ino q : ℕ) (h name : Bytes) (e : Entry)
    → SortedMap.get ino s.entries ≡ some e
    → relink now ino q h name s
      ≡ let s' = unlink_index ino e.parent e.name_hash s in
        link ino q h
          (record s' { entries = SortedMap.insert ino (renamed now q h name e) s'.entries })
unfolding relink
relink-some now s ino q h name e present = rw (present, relink)

-- In an index with right tables, moving an inode that has an entry and is not the root, to a name that is
-- free or its own, gives its entry the new parent,
-- name and change time, leaves the other entries, and keeps both tables equal to the entries.
pub relink-IsLinked :
    (now : ℕ) (s : Inner) (ino q : ℕ) (h name : Bytes) (e : Entry)
    → IsLinked s
    → ino ≢ root_ino
    → SortedMap.get ino s.entries ≡ some e
    → ((i : ℕ) → child s q h ≡ some i → i ≡ ino)
    → IsInserted s (renamed now q h name e) (relink now ino q h name s)
unfolding renamed
relink-IsLinked now s ino q h name e linked not_root present free =
    let but = but_unlinked s linked ino e present not_root in
    let s' = apart s linked ino e present not_root in
    let key : e.ino ≡ ino = linked.keyed ino e present in
    let moved : Entry = renamed now q h name e in
    rw (relink-some now s ino q h name e present) (
      subst
        (λ k.
          IsInserted s moved
            (link k q h (record s' { entries = SortedMap.insert k moved s'.entries })))
        key
        (
          relinked s' moved (subst (λ k. IsLinkedBut k s') (sym key) but)
              (λ r. not_root (sym key ∙ r))
              (free_apart s ino q h s' but free (kept_apart s linked ino e present not_root q h)),
          λ j. unfold link unlink_index in get-insert j e.ino moved s.entries,
        ))
