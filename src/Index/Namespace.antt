-- ===== src/Index/Namespace.antt =====
-- The index as a map from a parent and a name to an entry, under insertion, removal and relinking.
use pqfs.Common.{
  ℕ, ◌≤◌, ◌≡◌, ◌≢◌, refl, sym, ◌∙◌, ap, ap₂, subst, Bytes, Bool, true, false, none, some, ok, arith,
  ◌==◌, if◌then◌else◌, Bool-cases, Option-cases, inl, inr,
}
use pqfs.Common.SortedMap
use pqfs.Common.SortedMap.{SortedMap, IsSorted, get-insert, get-remove}
use pqfs.Common.SortedMap.Order.{remove-IsSorted}
use pqfs.Crypto.Primitives.{Primitives}
use pqfs.Crypto.Keys.{Crypto, same_bytes}
use pqfs.Index.Children.{same_name, same_name_refl}
use pqfs.Index.Entry.{Entry}
use pqfs.Index.State.{Inner, root_ino, link, unlink_index, insert_entry, remove_entry}
use pqfs.Index.Tables.{child, child-link, child-unlink}
use pqfs.Index.Invariant.{Named}
use pqfs.Index.Updates.{remove_entry-IsLinked, remove_entry-some}
use pqfs.Index.Names.{find_child, hash_filename, decrypt_filename}
use pqfs.Index.WellFormed.{
  IsIndex, insert_entry-new, find_child-none, find_child-entry, with_counters-IsLinked,
}

-- A key that is there is not one that is not.
pub present_apart :
    (m : SortedMap Entry) (i j : ℕ) (e : Entry)
    → SortedMap.get i m ≡ some e
    → SortedMap.get j m ≡ none
    → (i == j) ≡ false
present_apart m i j e there missing = elim (Bool-cases (i == j)) [
  | inl same ↦
      let i' : i ≡ j = ground arith in absurd (cc (there, missing, ap (λ k. SortedMap.get k m) i'))
  | inr other ↦ other
]

-- An inode with another name is another inode.
pub Named-other :
    (m : SortedMap Entry) (i q : ℕ) (h : Bytes) (j : ℕ) (e : Entry)
    → Named m i q h
    → SortedMap.get j m ≡ some e
    → same_name q h e.parent e.name_hash ≡ false
    → (i == j) ≡ false
Named-other m i q h j e n there differ = elim (Bool-cases (i == j)) [
  | inl same ↦
      let i' : i ≡ j = ground arith in
      let found : some n.listed.entry ≡ some e =
        sym n.listed.present ∙ ap (λ k. SortedMap.get k m) i' ∙ there in
      let e' : n.listed.entry ≡ e = cc found in
      let q' : q ≡ e.parent = sym n.listed.parent ∙ ap (λ (x : Entry). x.parent) e' in
      let h' : h ≡ e.name_hash = sym n.hash ∙ ap (λ (x : Entry). x.name_hash) e' in
      let own : same_name q h e.parent e.name_hash ≡ true =
        ap₂ (λ a b. same_name a b e.parent e.name_hash) q' h'
        ∙ same_name_refl e.parent e.name_hash in
      absurd (cc (own, differ))
  | inr other ↦ other
]

module _ (p : Primitives) (crypto : Crypto) where
  -- `find_child` reads one name and the entry of its inode.
  pub find_child-eq :
      (s s' : Inner) (q : ℕ) (n : Bytes)
      → child s' q (hash_filename p crypto n) ≡ child s q (hash_filename p crypto n)
      → ((i : ℕ)
          → child s q (hash_filename p crypto n) ≡ some i
          → SortedMap.get i s'.entries ≡ SortedMap.get i s.entries)
      → find_child p crypto q n s' ≡ find_child p crypto q n s
  unfolding find_child child
  find_child-eq s s' q n c g = elim (Option-cases (child s q (hash_filename p crypto n))) [
    | inl missing ↦ ground (arith, missing, c ∙ missing)
    | inr (i, at) ↦ ground (arith, at, c ∙ at, g i at)
  ]

  pub with_counters-IsIndex :
      (s : Inner) (flag : Bool) (next : ℕ)
      → IsIndex p crypto s
      → s.next_ino ≤ next
      → IsIndex p crypto (record s { dirty = flag; next_ino = next })
  with_counters-IsIndex s flag next index more = record {
    linked = with_counters-IsLinked s flag next index.linked;
    sorted = index.sorted;
    below = λ i e g. omega (arith, index.below i e g);
    root_below = omega (arith, index.root_below);
    readable = index.readable;
  }

  -- The next number is not in use.
  pub next-new : (s : Inner) → IsIndex p crypto s → SortedMap.get s.next_ino s.entries ≡ none
  next-new s index = elim (Option-cases (SortedMap.get s.next_ino s.entries)) [
    | inl new ↦ new
    | inr (e, there) ↦ absurd (omega (arith, index.below s.next_ino e there))
  ]

  module _ (s : Inner) (index : IsIndex p crypto s) (e : Entry) (not_root : e.ino ≢ root_ino)
      (new : SortedMap.get e.ino s.entries ≡ none) where
    -- The new entry is found under its name, and other names lead where they led.
    pub find_child-insert :
        (name : Bytes) (q : ℕ) (n : Bytes)
        → decrypt_filename p crypto e.name_encrypted ≡ ok name
        → find_child p crypto q n (insert_entry e s) ≡ (
            if same_name q (hash_filename p crypto n) e.parent e.name_hash
            then (if same_bytes name n then some e else none)
            else find_child p crypto q n s)
    unfolding link
    find_child-insert name q n readable =
        let h = hash_filename p crypto n in
        rw (insert_entry-new s e new not_root)
          (elim (Bool-cases (same_name q h e.parent e.name_hash)) [
            | inl same ↦ rw same (
                find_child-entry p crypto _ q n e.ino e name (rw (child-link, same))
                  (ground (arith, get-insert e.ino e.ino e s.entries)) readable)
            | inr differ ↦ rw differ (
                find_child-eq s _ q n (rw (child-link, differ) (unfold child in refl)) (λ i c.
                  let l = (index.linked.names q h i c).listed in
                  let other : (i == e.ino) ≡ false =
                    present_apart s.entries i e.ino l.entry l.present new in
                  ground (arith, other, get-insert i e.ino e s.entries)))
          ])

  module _ (s : Inner) (index : IsIndex p crypto s) (e : Entry) (not_root : e.ino ≢ root_ino)
      (there : SortedMap.get e.ino s.entries ≡ some e) where
    abbrev without : Inner
    without = (remove_entry e.ino s).1

    without_lem : without ≡ record (unlink_index e.ino e.parent e.name_hash s) {
      entries = SortedMap.remove e.ino s.entries;
    }
    without_lem = ap (λ r. r.1) (remove_entry-some s e.ino e there)

    remove_entry-next : without.next_ino ≡ s.next_ino
    unfolding unlink_index
    remove_entry-next = ap (λ (x : Inner). x.next_ino) without_lem

    pub remove_entry-IsIndex : IsIndex p crypto without
    remove_entry-IsIndex =
        let (linked, _, entries) = remove_entry-IsLinked s e.ino index.linked not_root in
        record {
          linked = linked;
          sorted =
              subst (λ (x : Inner). IsSorted x.entries) (sym without_lem)
                (remove-IsSorted e.ino s.entries index.sorted);
          below = λ i x g. rw remove_entry-next (index.below i x (ground (arith, g, entries i)));
          root_below = rw remove_entry-next index.root_below;
          readable = λ i x g. index.readable i x (ground (arith, g, entries i));
        }

    child-without :
        (q : ℕ) (h : Bytes)
        → child without q h ≡ (if same_name q h e.parent e.name_hash then none else child s q h)
    child-without q h =
        ap (λ (x : Inner). child x q h) without_lem
        ∙ (unfold child in
            child-unlink e.ino e.parent e.name_hash s q h
              (index.linked.named e.ino e there not_root))

    -- The name of the entry is free, and other names lead where they led.
    pub find_child-remove :
        (q : ℕ) (n : Bytes)
        → find_child p crypto q n without ≡ (
            if same_name q (hash_filename p crypto n) e.parent e.name_hash
            then none
            else find_child p crypto q n s)
    find_child-remove q n =
        let h = hash_filename p crypto n in
        elim (Bool-cases (same_name q h e.parent e.name_hash)) [
          | inl same ↦ rw same (find_child-none p crypto without q n (child-without q h ∙ rw same))
          | inr differ ↦ rw differ (
              find_child-eq s without q n (child-without q h ∙ rw differ) (λ i c.
                let n' = index.linked.names q h i c in
                let other : (i == e.ino) ≡ false =
                  Named-other s.entries i q h e.ino e n' there differ in
                let entries = (remove_entry-IsLinked s e.ino index.linked not_root).2 in
                ground (arith, other, entries i)))
        ]

    -- The name of the entry is free in the table of names.
    pub child-without_free : child without e.parent e.name_hash ≡ none
    child-without_free = child-without e.parent e.name_hash ∙ rw same_name_refl
