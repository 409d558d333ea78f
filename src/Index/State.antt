-- ===== src/Index/State.antt =====
-- `PqfsInner` of src/fs/inner.rs: the entries, and the two tables that `link` and `unlink_index` keep. The
-- backend's path is not part of the state, and the time is an argument where the code reads the clock.
use pqfs.Common.{
  ℕ, ◌+◌, Bytes, List, [], ◌∷◌, Bool, true, false, not, Option, none, some, ◌==◌, if◌then◌else◌,
}
use pqfs.Common.SortedMap
use pqfs.Common.SortedMap.{SortedMap}
use pqfs.Index.Children
use pqfs.Index.Children.{Children}
use pqfs.Index.Entry.{Entry, touch_changed}

-- `FUSE_ROOT_ID`
abbrev pub root_ino : ℕ
root_ino = 1

pub record Inner : Type 0 where
  pub entries : SortedMap Entry
  pub next_ino : ℕ
  pub children : Children
  pub by_parent : SortedMap (SortedMap (Unit {0}))
  pub dirty : Bool

-- `by_parent.entry(parent).or_default()`
unfoldable pub siblings : ℕ → Inner → SortedMap (Unit {0})
siblings parent s = elim (SortedMap.get parent s.by_parent) [ none ↦ [] | some set ↦ set ]

unfoldable pub link : ℕ → ℕ → Bytes → Inner → Inner
link ino parent name_hash s = record s {
  children = Children.insert parent name_hash ino s.children;
  by_parent = SortedMap.insert parent (SortedMap.insert ino tt (siblings parent s)) s.by_parent;
}

-- The name is forgotten if it leads to this inode.
unfoldable pub drop_name : ℕ → Option ℕ → ℕ → Bytes → Children → Children
drop_name ino none parent name_hash t = t
drop_name ino (some found) parent name_hash t =
    if found == ino then Children.remove parent name_hash t else t

-- The inode is taken out of its parent's set, and an empty set is dropped.
unfoldable pub drop_sibling :
    ℕ
    → ℕ
    → Option (SortedMap (Unit {0}))
    → SortedMap (SortedMap (Unit {0}))
    → SortedMap (SortedMap (Unit {0}))
drop_sibling ino parent none t = t
drop_sibling ino parent (some set) t =
    let rest = SortedMap.remove ino set in
    if SortedMap.is_empty rest then SortedMap.remove parent t else SortedMap.insert parent rest t

unfoldable pub unlink_index : ℕ → ℕ → Bytes → Inner → Inner
unfolding drop_name drop_sibling
unlink_index ino parent name_hash s = record s {
  children =
      drop_name ino (Children.lookup parent name_hash s.children) parent name_hash s.children;
  by_parent = drop_sibling ino parent (SortedMap.get parent s.by_parent) s.by_parent;
}

-- The links of an entry that was there before are undone first.
unfoldable pub unlink_previous : ℕ → Option Entry → Inner → Inner
unlink_previous ino none s = s
unlink_previous ino (some previous) s = unlink_index ino previous.parent previous.name_hash s

unfoldable pub insert_entry : Entry → Inner → Inner
unfolding unlink_previous
insert_entry e s =
    let s' = unlink_previous e.ino (SortedMap.get e.ino s.entries) s in
    let s'' = if e.ino == root_ino then s' else link e.ino e.parent e.name_hash s' in
    record s'' { entries = SortedMap.insert e.ino e s''.entries }

unfoldable pub remove_entry : ℕ → Inner → Option Entry × Inner
remove_entry ino s = elim (SortedMap.get ino s.entries) [
  | none ↦ (none, s)
  | some e ↦ (
    some e,
    unlink_index ino e.parent e.name_hash (record s { entries = SortedMap.remove ino s.entries }),
  )
]

-- The entry under its new name, at the time `now`.
unfoldable pub renamed : ℕ → ℕ → Bytes → Bytes → Entry → Entry
renamed now new_parent new_name_hash new_name_encrypted e = record e {
  parent = new_parent;
  name_hash = new_name_hash;
  name_encrypted = new_name_encrypted;
  times = touch_changed now e.times;
}

unfoldable pub relink : ℕ → ℕ → ℕ → Bytes → Bytes → Inner → Inner
relink now ino new_parent new_name_hash new_name_encrypted s = elim (SortedMap.get ino s.entries) [
  | none ↦ s
  | some e ↦
      let s' = unlink_index ino e.parent e.name_hash s in
      link ino new_parent new_name_hash (record s' {
        entries =
            SortedMap.insert ino (renamed now new_parent new_name_hash new_name_encrypted e)
              s'.entries;
      })
]

-- The loop of `rebuild_indexes` over the entries other than the root.
unfoldable pub link_all : SortedMap Entry → Inner → Inner
link_all [] s = s
link_all ((ino, e) ∷ es) s =
    link_all es (if e.ino == root_ino then s else link e.ino e.parent e.name_hash s)

unfoldable pub rebuild_indexes : Inner → Inner
unfolding link_all
rebuild_indexes s = link_all s.entries (record s { children = []; by_parent = [] })

unfoldable pub has_children : ℕ → Inner → Bool
has_children parent s = elim (SortedMap.get parent s.by_parent) [
  | none ↦ false
  | some set ↦ not (SortedMap.is_empty set)
]

unfoldable pub entries_of : SortedMap (Unit {0}) → SortedMap Entry → List Entry
entries_of [] entries = []
entries_of ((ino, _) ∷ set) entries =
    let rest = entries_of set entries in
    elim (SortedMap.get ino entries) [ none ↦ rest | some e ↦ e ∷ rest ]

unfoldable pub child_inodes : ℕ → Inner → List Entry
unfolding entries_of siblings
child_inodes parent s = entries_of (siblings parent s) s.entries

unfoldable pub allocate_ino : Inner → ℕ × Inner
allocate_ino s = (s.next_ino, record s { next_ino = s.next_ino + 1 })

unfoldable pub mark_dirty : Inner → Inner
mark_dirty s = record s { dirty = true }
