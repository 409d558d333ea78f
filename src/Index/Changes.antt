-- ===== src/Index/Changes.antt =====
-- The steps of a change of the index: an inode's entry is replaced, and its links are made again.
use pqfs.Common.{
  ℕ, ◌≡◌, ◌≢◌, refl, sym, ◌∙◌, ap, Bytes, true, ◌&&◌, Option, none, some, arith, ◌==◌,
  if◌then◌else◌, Bool-cases, inl, inr, subst,
}
use pqfs.Common.SortedMap
use pqfs.Common.SortedMap.{SortedMap, get-insert, get-remove}
use pqfs.Index.Children.{same_name, same_name_refl, same_name-eq}
use pqfs.Index.Entry.{Entry}
use pqfs.Index.State.{Inner, root_ino, siblings, link}
use pqfs.Index.Tables.{child, member, child-link, member-link}
use pqfs.Index.Invariant.{Listed, Named, IsLinked, IsLinkedBut}

module _ (ino : ℕ) (s : Inner) (but : IsLinkedBut ino s) where
  -- With no entry for the inode, the tables are whole.
  pub whole : SortedMap.get ino s.entries ≡ none → IsLinked s
  whole absent = record {
    keyed = but.keyed;
    named = λ i e g r.
        but.named i e g r (λ same. cc (g, absent, ap (λ j. SortedMap.get j s.entries) same));
    listed = λ i e g r.
        but.listed i e g r (λ same. cc (g, absent, ap (λ j. SortedMap.get j s.entries) same));
    names = λ q h i c. (but.names q h i c).0;
    members = λ q i m. (but.members q i m).0;
  }

  -- The entry of the inode itself may change.
  module _ (entries : SortedMap Entry) (own : Option Entry)
      (own_keyed : (e : Entry) → own ≡ some e → e.ino ≡ ino)
      (at : (j : ℕ)
        → SortedMap.get j entries ≡ (if j == ino then own else SortedMap.get j s.entries)) where
    others_stay : (i : ℕ) → i ≢ ino → SortedMap.get i entries ≡ SortedMap.get i s.entries
    others_stay i other = ground (arith, at i)

    keyed_still : (i : ℕ) (e : Entry) → SortedMap.get i entries ≡ some e → e.ino ≡ i
    keyed_still i e g = elim (Bool-cases (i == ino)) [
      | inl same ↦
          let i' : i ≡ ino = ground arith in own_keyed e (ground (arith, at i, g, same)) ∙ sym i'
      | inr other ↦ but.keyed i e (ground (arith, at i, g, other))
    ]

    listed_still : (i q : ℕ) → i ≢ ino → Listed s.entries i q → Listed entries i q
    listed_still i q other l = record {
      entry = l.entry;
      present = others_stay i other ∙ l.present;
      parent = l.parent;
      not_root = l.not_root;
    }

    pub but_entries : IsLinkedBut ino (record s { entries = entries })
    unfolding child member siblings listed_still
    but_entries = record {
      keyed = keyed_still;
      named = λ i e g r other. but.named i e (sym (others_stay i other) ∙ g) r other;
      listed = λ i e g r other. but.listed i e (sym (others_stay i other) ∙ g) r other;
      names = λ q h i c.
          let n = but.names q h i c in
          (record { listed = listed_still i q n.1 (n.0).listed; hash = (n.0).hash }, n.1);
      members = λ q i m. let l = but.members q i m in (listed_still i q l.1 l.0, l.1);
    }

  -- Linking the entry of the inode completes the tables, if no other entry has its name.
  module _ (e : Entry) (present : SortedMap.get ino s.entries ≡ some e) (not_root : ino ≢ root_ino)
      (free : child s e.parent e.name_hash ≡ none) where
    abbrev pub joined : Inner
    joined = link ino e.parent e.name_hash s

    own_listed : Listed s.entries ino e.parent
    own_listed = record { entry = e; present = present; parent = refl; not_root = not_root }

    named_joined :
        (i : ℕ) (e' : Entry)
        → SortedMap.get i s.entries ≡ some e'
        → i ≢ root_ino
        → child joined e'.parent e'.name_hash ≡ some i
    named_joined i e' g r = elim (Bool-cases (i == ino)) [
      | inl same ↦
          let i' : i ≡ ino = ground arith in
          let e'' : e' ≡ e = cc (g, present, ap (λ j. SortedMap.get j s.entries) i') in
          rw e'' (rw (child-link, same_name_refl) (ap some (sym i')))
      | inr other ↦
          let old : child s e'.parent e'.name_hash ≡ some i = but.named i e' g r (ground arith) in
          elim (Bool-cases (same_name e'.parent e'.name_hash e.parent e.name_hash)) [
            | inl clash ↦
                let q = same_name-eq e'.parent e'.name_hash e.parent e.name_hash clash in
                absurd (cc (q.0, q.1, old, free))
            | inr differ ↦ rw (child-link, differ) old
          ]
    ]

    listed_joined :
        (i : ℕ) (e' : Entry)
        → SortedMap.get i s.entries ≡ some e'
        → i ≢ root_ino
        → member joined e'.parent i ≡ true
    listed_joined i e' g r = elim (Bool-cases (i == ino)) [
      | inl same ↦
          let i' : i ≡ ino = ground arith in
          let e'' : e' ≡ e = cc (g, present, ap (λ j. SortedMap.get j s.entries) i') in
          rw e'' (ground (arith, same, member-link ino e.parent e.name_hash s e.parent i))
      | inr other ↦
          ground
            (arith, other, but.listed i e' g r, member-link ino e.parent e.name_hash s e'.parent i)
    ]

    names_joined : (q : ℕ) (h : Bytes) (i : ℕ) → child joined q h ≡ some i → Named s.entries i q h
    names_joined q h i c = elim (Bool-cases (same_name q h e.parent e.name_hash)) [
      | inl same ↦
          let qh = same_name-eq q h e.parent e.name_hash same in
          let i' : ino ≡ i = ground (arith, c, same, child-link ino e.parent e.name_hash s q h) in
          subst (λ j. Named s.entries j q h) i'
            (record {
              listed = record {
                entry = e;
                present = present;
                parent = sym qh.0;
                not_root = not_root;
              };
              hash = sym qh.1;
            })
      | inr differ ↦
          (but.names q h i (ground (arith, c, differ, child-link ino e.parent e.name_hash s q h))).0
    ]

    members_joined : (q i : ℕ) → member joined q i ≡ true → Listed s.entries i q
    members_joined q i m = elim (Bool-cases (q == e.parent && i == ino)) [
      | inl same ↦
          let i' : ino ≡ i = ground arith in
          let q' : e.parent ≡ q = ground arith in
          subst (λ j. Listed s.entries j q) i' (subst (Listed s.entries ino) q' own_listed)
      | inr other ↦
          (but.members q i (ground (arith, m, other, member-link ino e.parent e.name_hash s q i))).0
    ]

    pub IsLinked-again : IsLinked joined
    unfolding link
    IsLinked-again = record {
      keyed = but.keyed;
      named = named_joined;
      listed = listed_joined;
      names = names_joined;
      members = members_joined;
    }
