-- ===== src/Ops/Attributes.antt =====
-- Changing an entry's attributes keeps the index right: `commit_write` and `apply_setattr` touch neither
-- the number of an entry, nor its parent, nor its name.
use pqfs.Common.{
  ℕ, ◌≡◌, refl, ap, sym, ◌∙◌, Bytes, true, false, none, some, Option, Option-cases, ok, enoent,
  ==_refl, arith, if◌then◌else◌, ◌==◌, inl, inr, Bool-cases, subst,
}
use pqfs.Common.SortedMap
use pqfs.Common.SortedMap.{SortedMap, get-insert}
use pqfs.Common.SortedMap.Order.{insert-IsSorted}
use pqfs.Index.Entry.{Entry, touch_modified}
use pqfs.Index.State.{Inner, siblings, mark_dirty}
use pqfs.Index.Tables.{child, member}
use pqfs.Index.Invariant.{IsLinked, Listed}
use pqfs.Common.After.{After, After-ok, After-err, After-bind, After-weaken}
use pqfs.Crypto.Primitives.{Primitives}
use pqfs.Crypto.Keys.{Crypto}
use pqfs.Index.Names.{attr_for, decrypt_filename}
use pqfs.Index.Persist.{IndexCodec, Mount}
use pqfs.Index.WellFormed.{IsIndex}
use pqfs.Index.Namespace.{with_counters-IsIndex}
use pqfs.Ops.Steps.{save-After, IsFlagged-IsIndex}
use pqfs.Ops.Attrs.{
  SetAttr, when_some, with_attrs, put_attrs, modify_entry, commit_write, entry_of, getattr,
  apply_setattr,
}
use pqfs.Ops.Removal.{flagged}

-- The same number, parent and name.
abbrev pub IsSameNode : Entry → Entry → Type 0
IsSameNode e e' =
    (e'.ino ≡ e.ino)
    × (e'.parent ≡ e.parent)
    × (e'.name_hash ≡ e.name_hash)
    × (e'.name_encrypted ≡ e.name_encrypted)

module _ (s : Inner) (linked : IsLinked s) (ino : ℕ) (e e' : Entry)
    (there : SortedMap.get ino s.entries ≡ some e) (same : IsSameNode e e') where
  abbrev entries : SortedMap Entry
  entries = SortedMap.insert ino e' s.entries

  -- What an inode has now, it had before, but for attributes; and the other way round.
  node_before :
      (i : ℕ) (x : Entry)
      → SortedMap.get i entries ≡ some x
      → (y : Entry) × (SortedMap.get i s.entries ≡ some y) × IsSameNode y x
  node_before i x h = elim (Bool-cases (i == ino)) [
    | inl here ↦
        let i' : i ≡ ino = ground arith in
        let x' : e' ≡ x = ground (arith, h, here, get-insert i ino e' s.entries) in
        (e, ap (λ k. SortedMap.get k s.entries) i' ∙ there, subst (IsSameNode e) x' same)
    | inr other ↦
        (x, ground (arith, h, other, get-insert i ino e' s.entries), (refl, refl, refl, refl))
  ]

  node_after :
      (i : ℕ) (y : Entry)
      → SortedMap.get i s.entries ≡ some y
      → (x : Entry) × (SortedMap.get i entries ≡ some x) × IsSameNode y x
  node_after i y h = elim (Bool-cases (i == ino)) [
    | inl here ↦
        let i' : i ≡ ino = ground arith in
        let found : some e ≡ some y =
          sym there ∙ sym (ap (λ k. SortedMap.get k s.entries) i') ∙ h in
        let y' : e ≡ y = cc found in
        (
          e',
          ground (arith, here, get-insert i ino e' s.entries),
          subst (λ z. IsSameNode z e') y' same,
        )
    | inr other ↦
        (y, ground (arith, h, other, get-insert i ino e' s.entries), (refl, refl, refl, refl))
  ]

  listed_after : (i q : ℕ) → Listed s.entries i q → Listed entries i q
  listed_after i q l =
      let n = node_after i l.entry l.present in
      record { entry = n.0; present = n.1; parent = n.2.1 ∙ l.parent; not_root = l.not_root }

  changed-IsLinked : IsLinked (record s { entries = entries })
  unfolding child member siblings listed_after node_after
  changed-IsLinked = record {
    keyed = λ i x h. let n = node_before i x h in n.2.0 ∙ linked.keyed i n.0 n.1;
    named = λ i x h r. let n = node_before i x h in rw (n.2.1, n.2.2) (linked.named i n.0 n.1 r);
    listed = λ i x h r. let n = node_before i x h in rw n.2.1 (linked.listed i n.0 n.1 r);
    names = λ q k i c.
        let n = linked.names q k i c in
        record {
          listed = listed_after i q n.listed;
          hash = (node_after i n.listed.entry n.listed.present).2.2 ∙ n.hash;
        };
    members = λ q i m. listed_after i q (linked.members q i m);
  }

-- The entry after a write.
abbrev pub rewritten : ℕ → Bytes → ℕ → Entry → Entry
rewritten clock content_key_enc size e = record e {
  content_key = content_key_enc;
  size = size;
  times = touch_modified clock e.times;
}

pub modify_entry-some :
    (ino : ℕ) (change : Entry → Entry) (s : Inner) (e : Entry)
    → SortedMap.get ino s.entries ≡ some e
    → modify_entry ino change s ≡ record s { entries = SortedMap.insert ino (change e) s.entries }
unfolding modify_entry
modify_entry-some ino change s e there = rw (there, modify_entry)

pub commit_write-some :
    (clock : ℕ) (s : Inner) (ino : ℕ) (content_key_enc : Bytes) (size : ℕ) (e : Entry)
    → SortedMap.get ino s.entries ≡ some e
    → commit_write clock ino content_key_enc size s ≡ (
      true,
      mark_dirty (record s {
        entries = SortedMap.insert ino (rewritten clock content_key_enc size e) s.entries;
      }),
    )
unfolding commit_write mark_dirty
commit_write-some clock s ino content_key_enc size e there =
    rw (there, commit_write)
      (ap (λ s'. (true, mark_dirty s'))
        (modify_entry-some ino (rewritten clock content_key_enc size) s e there))

-- In an index with right tables, `commit_write` of an inode that has an entry reports it, marks the index as
-- changed, gives the entry the content key, the size and the times, leaves the other entries and keeps the
-- tables right.
pub commit_write-IsLinked :
    (clock : ℕ) (s : Inner) (ino : ℕ) (content_key_enc : Bytes) (size : ℕ) (e : Entry)
    → IsLinked s
    → SortedMap.get ino s.entries ≡ some e
    → let r = commit_write clock ino content_key_enc size s in
      (r.0 ≡ true)
      × (r.1.dirty ≡ true)
      × IsLinked r.1
      × ((j : ℕ)
          → SortedMap.get j r.1.entries ≡ (
              if j == ino
              then some (rewritten clock content_key_enc size e)
              else SortedMap.get j s.entries))
unfolding mark_dirty
commit_write-IsLinked clock s ino content_key_enc size e linked there =
    let e' = rewritten clock content_key_enc size e in
    rw (commit_write-some clock s ino content_key_enc size e there) (
      refl,
      refl,
      flagged _ true (changed-IsLinked s linked ino e e' there (refl, refl, refl, refl)),
      λ j. get-insert j ino e' s.entries,
    )

pub commit_write-none :
    (clock : ℕ) (s : Inner) (ino : ℕ) (content_key_enc : Bytes) (size : ℕ)
    → SortedMap.get ino s.entries ≡ none
    → commit_write clock ino content_key_enc size s ≡ (false, s)
unfolding commit_write
commit_write-none clock s ino content_key_enc size missing = rw (missing, commit_write)

-- A change that keeps an entry's number, parent and name.
when_some-IsSameNode {ℓ} :
    {A : Type ℓ} (o : Option A) (change : A → Entry → Entry) (e₀ e : Entry)
    → ((a : A) (e : Entry) → IsSameNode e (change a e))
    → IsSameNode e₀ e
    → IsSameNode e₀ (when_some o change e)
when_some-IsSameNode none change e₀ e keeps h = h
when_some-IsSameNode (some a) change e₀ e keeps h =
    let k = keeps a e in (k.0 ∙ h.0, k.1 ∙ h.1, k.2 ∙ h.2, k.3 ∙ h.3)

pub with_attrs-IsSameNode :
    (clock : ℕ) (a : SetAttr) (e : Entry) → IsSameNode e (with_attrs clock a e)
unfolding with_attrs
with_attrs-IsSameNode clock a e =
    when_some-IsSameNode a.truncated _ e _ (λ _ _. (refl, refl, refl, refl))
      (when_some-IsSameNode a.mtime _ e _ (λ _ _. (refl, refl, refl, refl))
        (when_some-IsSameNode a.atime _ e _ (λ _ _. (refl, refl, refl, refl))
          (when_some-IsSameNode a.gid _ e _ (λ _ _. (refl, refl, refl, refl))
            (when_some-IsSameNode a.uid _ e _ (λ _ _. (refl, refl, refl, refl))
              (when_some-IsSameNode a.mode _ e e (λ _ _. (refl, refl, refl, refl))
                (refl, refl, refl, refl))))))

module _ (p : Primitives) (crypto : Crypto) where
  -- A change of one entry's attributes keeps the index well-formed.
  pub changed-IsIndex :
      (s : Inner) (ino : ℕ) (e e' : Entry)
      → IsIndex p crypto s
      → SortedMap.get ino s.entries ≡ some e
      → IsSameNode e e'
      → IsIndex p crypto (record s { entries = SortedMap.insert ino e' s.entries })
  changed-IsIndex s ino e e' index there same = record {
    linked = changed-IsLinked s index.linked ino e e' there same;
    sorted = insert-IsSorted ino e' s.entries index.sorted;
    below = λ i x g.
        let n = node_before s index.linked ino e e' there same i x g in index.below i n.0 n.1;
    root_below = index.root_below;
    readable = λ i x g r.
        let n = node_before s index.linked ino e e' there same i x g in
        let old = index.readable i n.0 n.1 r in
        (old.0, ap (decrypt_filename p crypto) n.2.3 ∙ old.1, old.2 ∙ sym n.2.2);
  }

  pub commit_write-IsIndex :
      (clock : ℕ) (s : Inner) (ino : ℕ) (content_key_enc : Bytes) (size : ℕ)
      → IsIndex p crypto s
      → IsIndex p crypto (commit_write clock ino content_key_enc size s).1
  unfolding mark_dirty
  commit_write-IsIndex clock s ino content_key_enc size index =
      elim (Option-cases (SortedMap.get ino s.entries)) [
        | inl missing ↦ rw (commit_write-none clock s ino content_key_enc size missing) index
        | inr (e, there) ↦
            let e' = rewritten clock content_key_enc size e in
            rw (commit_write-some clock s ino content_key_enc size e there) (
              with_counters-IsIndex p crypto _ true s.next_ino
                (changed-IsIndex s ino e e' index there (refl, refl, refl, refl)) (omega arith))
      ]

  -- In a well-formed index, `apply_setattr` keeps the index well-formed on every path, and when it succeeds, a
  -- `getattr` of the inode gives the attributes that it replied.
  pub apply_setattr-IsIndex :
      (codec : IndexCodec) (clock ino : ℕ) (a : SetAttr) (m : Mount)
      → IsIndex p crypto m.inner
      → After
          (λ attr m'. IsIndex p crypto m'.inner × (getattr ino m'.inner ≡ ok attr))
          (λ m'. IsIndex p crypto m'.inner)
          (apply_setattr p crypto codec clock ino a m)
  unfolding apply_setattr entry_of getattr put_attrs
  apply_setattr-IsIndex codec clock ino a m index =
      elim (Option-cases (SortedMap.get ino (m.inner).entries)) [
        | inl missing ↦ rw missing (After-err enoent m index)
        | inr (e, there) ↦
            let e' = with_attrs clock a e in
            let s' : Inner = record (m.inner) {
              entries = SortedMap.insert ino e' (m.inner).entries;
            } in
            let index' : IsIndex p crypto s' =
              changed-IsIndex m.inner ino e e' index there (with_attrs-IsSameNode clock a e) in
            let at : SortedMap.get ino s'.entries ≡ some e' =
              get-insert ino ino e' (m.inner).entries ∙ rw ==_refl in
            rw there (
              rw (modify_entry-some ino (with_attrs clock a) m.inner e there) (
                After-bind _ _
                  (After-weaken _ (λ _ t f. f)
                    (λ t f. IsFlagged-IsIndex p codec crypto s' t index' f)
                    (save-After p codec crypto (record m { inner = s' })))
                  (λ _ t f. After-ok (attr_for e') t (
                    IsFlagged-IsIndex p codec crypto s' t index' f,
                    rw (ap (λ (x : Inner). SortedMap.get ino x.entries) f.1 ∙ at),
                  ))))
      ]
