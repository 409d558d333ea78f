-- ===== src/Index/Remount.antt =====
-- The next mount: `load` of src/fs/inner.rs, after `save_index`, gives the same directory tree.
use pqfs.Common.{
  ℕ, ◌+◌, ◌^◌, ◌<◌, ◌≤◌, ◌≡◌, refl, sym, ap, ◌∙◌, subst, Bytes, length, [], ◌∷◌, Bool, true, false,
  some, ok, arith, ◌==◌, if◌then◌else◌,
}
use pqfs.Common.SortedMap
use pqfs.Common.SortedMap.{SortedMap, IsSorted}
use pqfs.Common.SortedMap.Order.{last_key-max}
use pqfs.Backend.{exists}
use pqfs.Crypto.Primitives.{Primitives, IsSound}
use pqfs.Crypto.Keys.{Crypto}
use pqfs.Index.Entry.{Entry}
use pqfs.Index.State.{Inner, root_ino, link, link_all, rebuild_indexes}
use pqfs.Index.Tables.{child, member}
use pqfs.Index.Invariant.{Listed, Named, IsLinked}
use pqfs.Index.Names.{find_child, hash_filename}
use pqfs.Index.Persist.{IndexCodec, Mount, next_after, with_entries, load, save_index}
use pqfs.Index.WellFormed.{IsIndex, with_counters-IsLinked}
use pqfs.Index.Namespace.{find_child-eq}
use pqfs.Index.Saved.{save_index_total, read_entries-sealed}
use pqfs.Index.Rebuild.{rebuild_indexes-eq}

turn_same :
    (root : Bool) (e : Entry) (s : Inner)
    → ((if root then s else link e.ino e.parent e.name_hash s).entries ≡ s.entries)
      × ((if root then s else link e.ino e.parent e.name_hash s).next_ino ≡ s.next_ino)
unfolding link
turn_same true e s = (refl, refl)
turn_same false e s = (refl, refl)

link_all-entries :
    (es : SortedMap Entry) (s : Inner)
    → ((link_all es s).entries ≡ s.entries) × ((link_all es s).next_ino ≡ s.next_ino)
unfolding link_all
link_all-entries [] s = (refl, refl)
link_all-entries ((j, e) ∷ es) s =
    let turn = turn_same (e.ino == root_ino) e s in
    let rest =
      link_all-entries es (if e.ino == root_ino then s else link e.ino e.parent e.name_hash s) in
    (rest.0 ∙ turn.0, rest.1 ∙ turn.1)

rebuild_indexes-entries :
    (s : Inner)
    → ((rebuild_indexes s).entries ≡ s.entries) × ((rebuild_indexes s).next_ino ≡ s.next_ino)
unfolding rebuild_indexes
rebuild_indexes-entries s = link_all-entries s.entries (record s { children = []; by_parent = [] })

-- Right tables are right for an index with the same entries and tables.
same_tables :
    (s s' : Inner)
    → s'.entries ≡ s.entries
    → ((q : ℕ) (h : Bytes) → child s' q h ≡ child s q h)
    → ((q i : ℕ) → member s' q i ≡ member s q i)
    → IsLinked s
    → IsLinked s'
same_tables s s' entries names members linked =
    let get : (i : ℕ) → SortedMap.get i s.entries ≡ SortedMap.get i s'.entries =
      λ i. ap (SortedMap.get i) (sym entries) in
    let listed : (i q : ℕ) → Listed s.entries i q → Listed s'.entries i q = λ i q l. record {
      entry = l.entry;
      present = sym (get i) ∙ l.present;
      parent = l.parent;
      not_root = l.not_root;
    } in
    record {
      keyed = λ i e g. linked.keyed i e (get i ∙ g);
      named = λ i e g r. names e.parent e.name_hash ∙ linked.named i e (get i ∙ g) r;
      listed = λ i e g r. members e.parent i ∙ linked.listed i e (get i ∙ g) r;
      names = λ q h i c.
          subst (λ es. Named es i q h) (sym entries) (linked.names q h i (sym (names q h) ∙ c));
      members = λ q i m. listed i q (linked.members q i (sym (members q i) ∙ m));
    }

module _ (p : Primitives) (codec : IndexCodec) (crypto : Crypto) where
  -- What `load` makes of the entries of a well-formed index with a root.
  loaded : SortedMap Entry → Inner
  loaded entries = with_entries entries (next_after entries)

  module _ (s : Inner) (index : IsIndex p crypto s) (root : Entry)
      (rooted : SortedMap.get root_ino s.entries ≡ some root) where
    -- The index in memory, with the number that `load` goes on with.
    abbrev counted : Inner
    counted = record s { next_ino = next_after s.entries; dirty = false }

    next_after-above :
        (i : ℕ) (e : Entry) → SortedMap.get i s.entries ≡ some e → i < next_after s.entries
    unfolding next_after
    next_after-above i e g =
        let (l, last, most) = last_key-max i e s.entries index.sorted g in
        ground (arith, last, most)

    counted-IsLinked : IsLinked counted
    counted-IsLinked = with_counters-IsLinked s false (next_after s.entries) index.linked

    same_loaded : loaded s.entries ≡ rebuild_indexes counted
    unfolding loaded with_entries rebuild_indexes
    same_loaded = refl

    loaded-child : (q : ℕ) (h : Bytes) → child (loaded s.entries) q h ≡ child s q h
    unfolding child
    loaded-child q h =
        ap (λ x. child x q h) same_loaded
        ∙ (rebuild_indexes-eq counted counted-IsLinked index.sorted).0 q h

    loaded-entries : (loaded s.entries).entries ≡ s.entries
    loaded-entries = ap (λ (x : Inner). x.entries) same_loaded ∙ (rebuild_indexes-entries counted).0

    loaded-next : (loaded s.entries).next_ino ≡ next_after s.entries
    loaded-next = ap (λ (x : Inner). x.next_ino) same_loaded ∙ (rebuild_indexes-entries counted).1

    loaded-IsIndex : IsIndex p crypto (loaded s.entries)
    loaded-IsIndex =
        let get : (i : ℕ) → SortedMap.get i (loaded s.entries).entries ≡ SortedMap.get i s.entries =
          λ i. ap (SortedMap.get i) loaded-entries in
        record {
          linked = subst IsLinked (sym same_loaded) (
              same_tables counted (rebuild_indexes counted) (rebuild_indexes-entries counted).0
                (rebuild_indexes-eq counted counted-IsLinked index.sorted).0
                (rebuild_indexes-eq counted counted-IsLinked index.sorted).1 counted-IsLinked);
          sorted = subst IsSorted (sym loaded-entries) index.sorted;
          below = λ i e g. rw loaded-next (next_after-above i e (sym (get i) ∙ g));
          root_below = rw loaded-next (next_after-above root_ino root rooted);
          readable = λ i e g r. index.readable i e (sym (get i) ∙ g) r;
        }

    loaded-find_child :
        (q : ℕ) (n : Bytes) → find_child p crypto q n (loaded s.entries) ≡ find_child p crypto q n s
    loaded-find_child q n =
        find_child-eq p crypto s (loaded s.entries) q n (loaded-child q (hash_filename p crypto n))
          (λ i c. ap (SortedMap.get i) loaded-entries)

  -- What a saved index and the next mount of it have in common.
  pub record IsReloaded (s s' : Inner) : Type 0 where
    pub index : IsIndex p crypto s'
    pub entries : s'.entries ≡ s.entries
    pub found : (q : ℕ) (n : Bytes) → find_child p crypto q n s' ≡ find_child p crypto q n s

  -- For a well-formed index with a root, a sound cipher, a key of 32 bytes, and a backend that can still be
  -- changed three times, whose entries fit a message of the cipher and are read back by the codec: saving
  -- succeeds, and so does a load of what it leaves, which gives a well-formed index with the same entries, in
  -- which every name leads where it led.
  pub load-save_index :
      (sound : IsSound p) (m : Mount) (n now uid gid : ℕ) (root : Entry)
      → IsIndex p crypto m.inner
      → SortedMap.get root_ino (m.inner).entries ≡ some root
      → length crypto.cipher ≡ 32
      → (m.backend).power ≡ n + 3
      → length (codec.serialize (m.inner).entries) ≤ 2 ^ 37
      → codec.deserialize (codec.serialize (m.inner).entries) ≡ some (m.inner).entries
      → (m' : Mount) × (save_index p codec crypto m ≡ (ok tt, m'))
        × (s' : Inner) × (load p codec now uid gid crypto m'.backend ≡ (ok s', m'.backend))
        × IsReloaded m.inner s'
  unfolding load exists
  load-save_index sound m n now uid gid root index rooted cipher power fits faithful =
      let r = save_index_total p codec sound crypto m n cipher power fits in
      let read =
        read_entries-sealed p codec crypto r.after r.blob (codec.serialize (m.inner).entries)
          (m.inner).entries r.file r.opens faithful in
      (
        record { inner = record (m.inner) { dirty = false }; backend = r.after },
        r.runs,
        loaded (m.inner).entries,
        (unfold loaded in rw (r.file, exists) (rw read refl)),
        record {
          index = loaded-IsIndex m.inner index root rooted;
          entries = loaded-entries m.inner index root rooted;
          found = loaded-find_child m.inner index root rooted;
        },
      )
