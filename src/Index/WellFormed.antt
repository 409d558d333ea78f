-- ===== src/Index/WellFormed.antt =====
-- A well-formed index: the tables are the entries', inode numbers are below the next one, and the name of
-- every entry decrypts to one that has its hash.
use pqfs.Common.{
  ℕ, ◌<◌, ◌≡◌, ◌≢◌, sym, ◌∙◌, ap, subst, Bytes, Bool, false, none, some, ok, arith, ◌==◌,
  if◌then◌else◌, Bool-cases, Option-cases, inl, inr,
}
use pqfs.Common.SortedMap
use pqfs.Common.SortedMap.{SortedMap, IsSorted, get-insert}
use pqfs.Common.SortedMap.Order.{insert-IsSorted}
use pqfs.Crypto.Primitives.{Primitives}
use pqfs.Crypto.Keys.{Crypto, same_bytes}
use pqfs.Crypto.Volume.Mac.{same_bytes_refl}
use pqfs.Index.Entry.{Entry}
use pqfs.Index.State.{Inner, root_ino, siblings, link, unlink_previous, insert_entry}
use pqfs.Index.Tables.{child, member}
use pqfs.Index.Invariant.{IsLinked}
use pqfs.Index.Updates.{insert_entry-IsLinked}
use pqfs.Index.Names.{find_child, hash_filename, with_name, decrypt_filename}

-- The flag and the next number are no part of the tables.
pub with_counters-IsLinked :
    (s : Inner) (flag : Bool) (next : ℕ)
    → IsLinked s
    → IsLinked (record s { dirty = flag; next_ino = next })
unfolding child member siblings
with_counters-IsLinked s flag next h = record {
  keyed = h.keyed;
  named = h.named;
  listed = h.listed;
  names = h.names;
  members = h.members;
}

-- With a new number, `insert_entry` links the entry and adds it.
pub insert_entry-new :
    (s : Inner) (e : Entry)
    → SortedMap.get e.ino s.entries ≡ none
    → e.ino ≢ root_ino
    → insert_entry e s
      ≡ link e.ino e.parent e.name_hash (record s { entries = SortedMap.insert e.ino e s.entries })
unfolding insert_entry link siblings unlink_previous
insert_entry-new s e new not_root =
    let other : (e.ino == root_ino) ≡ false = ground arith in rw (new, insert_entry) (rw other)

insert_entry-next :
    (s : Inner) (e : Entry)
    → SortedMap.get e.ino s.entries ≡ none
    → e.ino ≢ root_ino
    → (insert_entry e s).next_ino ≡ s.next_ino
unfolding link
insert_entry-next s e new not_root = rw (insert_entry-new s e new not_root)

insert_entry-IsSorted :
    (s : Inner) (e : Entry)
    → SortedMap.get e.ino s.entries ≡ none
    → e.ino ≢ root_ino
    → IsSorted s.entries
    → IsSorted (insert_entry e s).entries
unfolding link
insert_entry-IsSorted s e new not_root sorted =
    rw (insert_entry-new s e new not_root) (insert-IsSorted e.ino e s.entries sorted)

module _ (p : Primitives) (crypto : Crypto) where
  -- The name of an entry decrypts, to one that has the entry's hash.
  abbrev pub IsReadable : Entry → Type 0
  IsReadable e =
      (name : Bytes) × (decrypt_filename p crypto e.name_encrypted ≡ ok name)
      × (hash_filename p crypto name ≡ e.name_hash)

  pub record IsIndex (s : Inner) : Type 0 where
    pub linked : IsLinked s
    pub sorted : IsSorted s.entries
    pub below : (i : ℕ) (e : Entry) → SortedMap.get i s.entries ≡ some e → i < s.next_ino
    pub root_below : root_ino < s.next_ino
    pub readable :
        (i : ℕ) (e : Entry) → SortedMap.get i s.entries ≡ some e → i ≢ root_ino → IsReadable e

  -- No name in the index collides with this one.
  abbrev pub IsApart : Inner → Bytes → Type 0
  IsApart s name =
      (i : ℕ) (e : Entry) (other : Bytes)
      → SortedMap.get i s.entries ≡ some e
      → decrypt_filename p crypto e.name_encrypted ≡ ok other
      → hash_filename p crypto other ≡ hash_filename p crypto name
      → other ≡ name

  with_name-ok :
      (name : Bytes) (e : Entry)
      → decrypt_filename p crypto e.name_encrypted ≡ ok name
      → with_name p crypto name e ≡ some e
  unfolding with_name
  with_name-ok name e h = ground (arith, h, same_bytes_refl name)

  -- What `find_child` does, by the table of names.
  pub find_child-entry :
      (s : Inner) (parent : ℕ) (name : Bytes) (i : ℕ) (e : Entry) (own : Bytes)
      → child s parent (hash_filename p crypto name) ≡ some i
      → SortedMap.get i s.entries ≡ some e
      → decrypt_filename p crypto e.name_encrypted ≡ ok own
      → find_child p crypto parent name s ≡ (if same_bytes own name then some e else none)
  unfolding find_child child with_name
  find_child-entry s parent name i e own c g d = rw (c, g, d, find_child, with_name)

  pub find_child-at :
      (s : Inner) (parent : ℕ) (name : Bytes) (i : ℕ) (e : Entry)
      → child s parent (hash_filename p crypto name) ≡ some i
      → SortedMap.get i s.entries ≡ some e
      → decrypt_filename p crypto e.name_encrypted ≡ ok name
      → find_child p crypto parent name s ≡ some e
  unfolding find_child child
  find_child-at s parent name i e c g d = ground (arith, c, g, with_name-ok name e d)

  pub find_child-none :
      (s : Inner) (parent : ℕ) (name : Bytes)
      → child s parent (hash_filename p crypto name) ≡ none
      → find_child p crypto parent name s ≡ none
  unfolding find_child child
  find_child-none s parent name c = ground (arith, c)

  module _ (s : Inner) (index : IsIndex s) (parent : ℕ) (name : Bytes)
      (apart : IsApart s name) where
    -- In a well-formed index, a name that the table of names has is found.
    pub find_child-some :
        (i : ℕ)
        → child s parent (hash_filename p crypto name) ≡ some i
        → (e : Entry) × (find_child p crypto parent name s ≡ some e)
          × (SortedMap.get i s.entries ≡ some e)
          × (e.parent ≡ parent)
          × (e.name_hash ≡ hash_filename p crypto name)
          × (i ≢ root_ino)
          × (e.ino ≡ i)
    find_child-some i c =
        let n = index.linked.names parent (hash_filename p crypto name) i c in
        let e = n.listed.entry in
        let r = index.readable i e n.listed.present n.listed.not_root in
        let same : r.0 ≡ name = apart i e r.0 n.listed.present r.1 (r.2 ∙ n.hash) in
        (
          e,
          find_child-at s parent name i e c n.listed.present (r.1 ∙ ap (λ x. ok x) same),
          n.listed.present,
          n.listed.parent,
          n.hash,
          n.listed.not_root,
          index.linked.keyed i e n.listed.present,
        )

    -- A name that is not found is free in the table of names.
    pub child-free :
        find_child p crypto parent name s ≡ none
        → child s parent (hash_filename p crypto name) ≡ none
    child-free missing = elim (Option-cases (child s parent (hash_filename p crypto name))) [
      | inl free ↦ free
      | inr (i, c) ↦ absurd (cc (missing, (find_child-some i c).1))
    ]

    -- What is found is what the table of names has.
    pub child-found :
        (e : Entry)
        → find_child p crypto parent name s ≡ some e
        → (child s parent (hash_filename p crypto name) ≡ some e.ino)
          × (SortedMap.get e.ino s.entries ≡ some e)
          × (e.parent ≡ parent)
          × (e.name_hash ≡ hash_filename p crypto name)
          × (e.ino ≢ root_ino)
    child-found e found = elim (Option-cases (child s parent (hash_filename p crypto name))) [
      | inl free ↦ absurd (cc (found, find_child-none s parent name free))
      | inr (i, c) ↦
          let (e', f, g, q, h, r, k) = find_child-some i c in
          let same : e' ≡ e = ground (arith, f, found) in
          subst
            (λ (x : Entry).
              (child s parent (hash_filename p crypto name) ≡ some x.ino)
              × (SortedMap.get x.ino s.entries ≡ some x)
              × (x.parent ≡ parent)
              × (x.name_hash ≡ hash_filename p crypto name)
              × (x.ino ≢ root_ino))
            same
            (
              c ∙ ap (λ x. some x) (sym k),
              ap (λ j. SortedMap.get j s.entries) k ∙ g,
              q,
              h,
              λ z. r (sym k ∙ z),
            )
    ]

  -- The index with one more entry, under a new number and a free name.
  pub insert_entry-IsIndex :
      (s : Inner) (e : Entry)
      → IsIndex s
      → e.ino ≢ root_ino
      → e.ino < s.next_ino
      → IsReadable e
      → SortedMap.get e.ino s.entries ≡ none
      → child s e.parent e.name_hash ≡ none
      → IsIndex (insert_entry e s)
  insert_entry-IsIndex s e index not_root small readable new free =
      let (linked, entries) =
        insert_entry-IsLinked s e index.linked not_root (λ i c. absurd (cc (c, free))) in
      let next : (insert_entry e s).next_ino ≡ s.next_ino = insert_entry-next s e new not_root in
      record {
        linked = linked;
        sorted = insert_entry-IsSorted s e new not_root index.sorted;
        below = λ i x g. rw next (elim (Bool-cases (i == e.ino)) [
          | inl same ↦ let i' : i ≡ e.ino = ground arith in rw i' small
          | inr other ↦ index.below i x (ground (arith, g, other, entries i))
        ]);
        root_below = rw next index.root_below;
        readable = λ i x g r. elim (Bool-cases (i == e.ino)) [
          | inl same ↦
              let x' : e ≡ x = ground (arith, g, same, entries i) in subst IsReadable x' readable
          | inr other ↦ index.readable i x (ground (arith, g, other, entries i)) r
        ];
      }
