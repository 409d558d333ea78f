-- ===== src/Index/Invariant.antt =====
-- The two tables hold exactly the entries, by name and by parent; and every change of the index keeps it so.
use pqfs.Common.{
  ℕ, ◌≡◌, ◌≢◌, sym, ◌∙◌, ap, Bytes, true, false, none, some, arith, if◌then◌else◌, Bool-cases, inl,
  inr, subst,
}
use pqfs.Common.SortedMap
use pqfs.Common.SortedMap.{SortedMap, get-insert, get-remove, get-nil}
use pqfs.Index.Children.{same_name, same_name_refl, same_name-eq}
use pqfs.Index.Entry.{Entry}
use pqfs.Index.State.{Inner, root_ino, unlink_index}
use pqfs.Index.Tables.{child, member, child-unlink, member-unlink}

-- The entry of an inode that a table lists: it is there, and not the root.
pub record Listed (entries : SortedMap Entry) (i q : ℕ) : Type 0 where
  pub entry : Entry
  pub present : SortedMap.get i entries ≡ some entry
  pub parent : entry.parent ≡ q
  pub not_root : i ≢ root_ino

pub record Named (entries : SortedMap Entry) (i q : ℕ) (h : Bytes) : Type 0 where
  pub listed : Listed entries i q
  pub hash : (listed.entry).name_hash ≡ h

pub record IsLinked (s : Inner) : Type 0 where
  pub keyed : (i : ℕ) (e : Entry) → SortedMap.get i s.entries ≡ some e → e.ino ≡ i
  pub named :
      (i : ℕ) (e : Entry)
      → SortedMap.get i s.entries ≡ some e
      → i ≢ root_ino
      → child s e.parent e.name_hash ≡ some i
  pub listed :
      (i : ℕ) (e : Entry)
      → SortedMap.get i s.entries ≡ some e
      → i ≢ root_ino
      → member s e.parent i ≡ true
  pub names : (q : ℕ) (h : Bytes) (i : ℕ) → child s q h ≡ some i → Named s.entries i q h
  pub members : (q i : ℕ) → member s q i ≡ true → Listed s.entries i q

-- The same but for one inode, which no table mentions.
pub record IsLinkedBut (ino : ℕ) (s : Inner) : Type 0 where
  pub keyed : (i : ℕ) (e : Entry) → SortedMap.get i s.entries ≡ some e → e.ino ≡ i
  pub named :
      (i : ℕ) (e : Entry)
      → SortedMap.get i s.entries ≡ some e
      → i ≢ root_ino
      → i ≢ ino
      → child s e.parent e.name_hash ≡ some i
  pub listed :
      (i : ℕ) (e : Entry)
      → SortedMap.get i s.entries ≡ some e
      → i ≢ root_ino
      → i ≢ ino
      → member s e.parent i ≡ true
  pub names : (q : ℕ) (h : Bytes) (i : ℕ) → child s q h ≡ some i → Named s.entries i q h × (i ≢ ino)
  pub members : (q i : ℕ) → member s q i ≡ true → Listed s.entries i q × (i ≢ ino)

module _ (s : Inner) (linked : IsLinked s) (ino : ℕ) where
  -- An inode that has no entry is in no table.
  pub but_absent : SortedMap.get ino s.entries ≡ none → IsLinkedBut ino s
  but_absent absent = record {
    keyed = linked.keyed;
    named = λ i e g r _. linked.named i e g r;
    listed = λ i e g r _. linked.listed i e g r;
    names = λ q h i c.
        let n = linked.names q h i c in
        (n, λ same. cc (absent, n.listed.present, ap (λ j. SortedMap.get j s.entries) same));
    members = λ q i m.
        let l = linked.members q i m in
        (l, λ same. cc (absent, l.present, ap (λ j. SortedMap.get j s.entries) same));
  }

  module _ (e : Entry) (present : SortedMap.get ino s.entries ≡ some e)
      (not_root : ino ≢ root_ino) where
    abbrev pub apart : Inner
    apart = unlink_index ino e.parent e.name_hash s

    pub child-apart :
        (q : ℕ) (h : Bytes)
        → child apart q h ≡ (if same_name q h e.parent e.name_hash then none else child s q h)
    child-apart q h =
        child-unlink ino e.parent e.name_hash s q h (linked.named ino e present not_root)

    -- No other entry has the name.
    other_name :
        (i : ℕ) (e' : Entry)
        → SortedMap.get i s.entries ≡ some e'
        → i ≢ root_ino
        → i ≢ ino
        → same_name e'.parent e'.name_hash e.parent e.name_hash ≡ false
    other_name i e' g r other =
        elim (Bool-cases (same_name e'.parent e'.name_hash e.parent e.name_hash)) [
          | inl same ↦
              let q = same_name-eq e'.parent e'.name_hash e.parent e.name_hash same in
              let i' : i ≡ ino =
                cc (q.0, q.1, linked.named i e' g r, linked.named ino e present not_root) in
              absurd (other i')
          | inr differ ↦ differ
        ]

    names_apart :
        (q : ℕ) (h : Bytes) (i : ℕ) → child apart q h ≡ some i → Named s.entries i q h × (i ≢ ino)
    names_apart q h i c = elim (Bool-cases (same_name q h e.parent e.name_hash)) [
      | inl same ↦ absurd (ground (arith, c, child-apart q h, same))
      | inr differ ↦
          let n = linked.names q h i (ground (arith, c, child-apart q h, differ)) in
          (
            n,
            λ same.
                let e' : n.listed.entry ≡ e =
                  cc (n.listed.present, present, ap (λ j. SortedMap.get j s.entries) same) in
                let own : same_name q h e.parent e.name_hash ≡ true =
                  subst (λ (x : Entry). same_name q h x.parent x.name_hash ≡ true) e'
                    (subst
                      (λ k. same_name q k n.listed.entry.parent n.listed.entry.name_hash ≡ true)
                      n.hash
                      (subst
                        (λ k.
                          same_name k n.listed.entry.name_hash n.listed.entry.parent
                            n.listed.entry.name_hash
                          ≡ true)
                        n.listed.parent
                        (same_name_refl n.listed.entry.parent n.listed.entry.name_hash))) in
                cc (own, differ),
          )
    ]

    members_apart : (q i : ℕ) → member apart q i ≡ true → Listed s.entries i q × (i ≢ ino)
    members_apart q i m =
        let l =
          linked.members q i (ground (arith, m, member-unlink ino e.parent e.name_hash s q i)) in
        (
          l,
          λ same.
              let e' : l.entry ≡ e =
                cc (l.present, present, ap (λ j. SortedMap.get j s.entries) same) in
              let q' : q ≡ e.parent = sym l.parent ∙ ap (λ (x : Entry). x.parent) e' in
              ground (arith, m, same, q', member-unlink ino e.parent e.name_hash s q i),
        )

    -- Undoing the links of an entry takes its inode out of both tables, and nothing else.
    pub but_unlinked : IsLinkedBut ino apart
    unfolding unlink_index
    but_unlinked = record {
      keyed = linked.keyed;
      named = λ i e' g r other.
          rw (child-apart e'.parent e'.name_hash, other_name i e' g r other)
            (linked.named i e' g r);
      listed = λ i e' g r other. rw member-unlink (ground (arith, linked.listed i e' g r, other));
      names = names_apart;
      members = members_apart;
    }
