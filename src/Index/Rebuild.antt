-- ===== src/Index/Rebuild.antt =====
-- `rebuild_indexes` of src/fs/inner.rs against the tables that the other operations keep up to date: both are
-- the same tables.
use pqfs.Common.{
  ℕ, ◌≡◌, ◌≢◌, refl, sym, ap, ◌∙◌, subst, Bytes, [], ◌∷◌, true, false, ◌&&◌, some, arith, ◌==◌,
  if◌then◌else◌, Bool-cases, Option-cases, inl, inr,
}
use pqfs.Common.SortedMap
use pqfs.Common.SortedMap.{SortedMap, IsSorted, Above}
use pqfs.Common.SortedMap.Order.{get-Above}
use pqfs.Index.Children
use pqfs.Index.Children.{same_name, same_name_refl, same_name-eq}
use pqfs.Index.Entry.{Entry}
use pqfs.Index.State.{Inner, root_ino, siblings, link, link_all, rebuild_indexes}
use pqfs.Index.Tables.{child, member, child-link, member-link}
use pqfs.Index.Invariant.{IsLinked}

-- What the maintained tables say of an entry.
module _ (s₀ : Inner) (linked : IsLinked s₀) where
  abbrev IsKnown : Entry → Type 0
  IsKnown e =
      e.ino ≢ root_ino
      → (child s₀ e.parent e.name_hash ≡ some e.ino) × (member s₀ e.parent e.ino ≡ true)

  abbrev AllKnown : SortedMap Entry → Type 0
  AllKnown [] = Unit
  AllKnown ((i, e) ∷ es) = IsKnown e × AllKnown es

  -- Tables that say nothing but what the maintained ones say.
  record IsBelow (s : Inner) : Type 0 where
    names : (q : ℕ) (h : Bytes) (i : ℕ) → child s q h ≡ some i → child s₀ q h ≡ some i
    members : (q i : ℕ) → member s q i ≡ true → member s₀ q i ≡ true

  link-IsBelow :
      (s : Inner) (e : Entry)
      → IsKnown e
      → e.ino ≢ root_ino
      → IsBelow s
      → IsBelow (link e.ino e.parent e.name_hash s)
  link-IsBelow s e known not_root below = record {
    names = λ q h i c. elim (Bool-cases (same_name q h e.parent e.name_hash)) [
      | inl same ↦
          let (q', h') = same_name-eq q h e.parent e.name_hash same in
          let own : e.ino ≡ i =
            ground (arith, c, same, child-link e.ino e.parent e.name_hash s q h) in
          cc (q', h', own, (known not_root).0)
      | inr other ↦
          below.names q h i (ground (arith, c, other, child-link e.ino e.parent e.name_hash s q h))
    ];
    members = λ q i m. elim (Bool-cases (q == e.parent && i == e.ino)) [
      | inl same ↦
          let q' : q ≡ e.parent = ground arith in
          let i' : i ≡ e.ino = ground arith in cc (q', i', (known not_root).1)
      | inr other ↦
          below.members q i (ground (arith, m, other, member-link e.ino e.parent e.name_hash s q i))
    ];
  }

  -- A name that the maintained tables have is not lost by a link that they know.
  child-link_kept :
      (s : Inner) (e : Entry) (q : ℕ) (h : Bytes) (i : ℕ)
      → IsKnown e
      → e.ino ≢ root_ino
      → child s₀ q h ≡ some i
      → child s q h ≡ some i
      → child (link e.ino e.parent e.name_hash s) q h ≡ some i
  child-link_kept s e q h i known not_root old c =
      elim (Bool-cases (same_name q h e.parent e.name_hash)) [
        | inl same ↦
            let (q', h') = same_name-eq q h e.parent e.name_hash same in
            let own : some e.ino ≡ some i = cc (q', h', old, (known not_root).0) in
            rw (child-link, same) own
        | inr other ↦ rw (child-link, other) c
      ]

  member-link_kept :
      (s : Inner) (e : Entry) (q i : ℕ)
      → member s q i ≡ true
      → member (link e.ino e.parent e.name_hash s) q i ≡ true
  member-link_kept s e q i m = ground (arith, m, member-link e.ino e.parent e.name_hash s q i)

  -- One turn of the loop.
  abbrev turn : Entry → Inner → Inner
  turn e s = if e.ino == root_ino then s else link e.ino e.parent e.name_hash s

  turn-IsBelow : (s : Inner) (e : Entry) → IsKnown e → IsBelow s → IsBelow (turn e s)
  turn-IsBelow s e known below = elim (Bool-cases (e.ino == root_ino)) [
    | inl root ↦ rw root below
    | inr other ↦ rw other (link-IsBelow s e known (ground (arith, other)) below)
  ]

  turn_kept :
      (s : Inner) (e : Entry) (q : ℕ) (h : Bytes) (i : ℕ)
      → IsKnown e
      → child s₀ q h ≡ some i
      → child s q h ≡ some i
      → child (turn e s) q h ≡ some i
  turn_kept s e q h i known old c = elim (Bool-cases (e.ino == root_ino)) [
    | inl root ↦ rw root c
    | inr other ↦ rw other (child-link_kept s e q h i known (ground (arith, other)) old c)
  ]

  turn-member :
      (s : Inner) (e : Entry) (q i : ℕ) → member s q i ≡ true → member (turn e s) q i ≡ true
  turn-member s e q i m = elim (Bool-cases (e.ino == root_ino)) [
    | inl root ↦ rw root m
    | inr other ↦ rw other (member-link_kept s e q i m)
  ]

  link_all-IsBelow :
      (es : SortedMap Entry) (s : Inner) → AllKnown es → IsBelow s → IsBelow (link_all es s)
  unfolding link_all
  link_all-IsBelow [] s known below = below
  link_all-IsBelow ((j, e) ∷ es) s (k, known) below =
      link_all-IsBelow es (turn e s) known (turn-IsBelow s e k below)

  link_all_kept :
      (es : SortedMap Entry) (s : Inner) (q : ℕ) (h : Bytes) (i : ℕ)
      → AllKnown es
      → child s₀ q h ≡ some i
      → child s q h ≡ some i
      → child (link_all es s) q h ≡ some i
  unfolding link_all
  link_all_kept [] s q h i known old c = c
  link_all_kept ((j, e) ∷ es) s q h i (k, known) old c =
      link_all_kept es (turn e s) q h i known old (turn_kept s e q h i k old c)

  link_all-member :
      (es : SortedMap Entry) (s : Inner) (q i : ℕ)
      → member s q i ≡ true
      → member (link_all es s) q i ≡ true
  unfolding link_all
  link_all-member [] s q i m = m
  link_all-member ((j, e) ∷ es) s q i m = link_all-member es (turn e s) q i (turn-member s e q i m)

  -- Every entry of the list gets its links.
  link_all-entry :
      (es : SortedMap Entry) (s : Inner) (i : ℕ) (e : Entry)
      → AllKnown es
      → SortedMap.get i es ≡ some e
      → e.ino ≢ root_ino
      → (child (link_all es s) e.parent e.name_hash ≡ some e.ino)
        × (member (link_all es s) e.parent e.ino ≡ true)
  unfolding link_all SortedMap.get
  link_all-entry [] s i e known g r = absurd (ground arith)
  link_all-entry ((j, x) ∷ es) s i e (k, known) g r = elim (Bool-cases (i == j)) [
    | inl same ↦
        let x' : x ≡ e = ground (arith, g, same) in
        let not_root : x.ino ≢ root_ino = subst (λ (y : Entry). y.ino ≢ root_ino) (sym x') r in
        let other : (x.ino == root_ino) ≡ false = ground (arith, not_root) in
        let found : child (turn x s) x.parent x.name_hash ≡ some x.ino =
          rw other (rw (child-link, same_name_refl) refl) in
        let in_set : member (turn x s) x.parent x.ino ≡ true =
          rw other (ground (arith, member-link x.ino x.parent x.name_hash s x.parent x.ino)) in
        subst
          (λ (y : Entry).
            (child (link_all es (turn x s)) y.parent y.name_hash ≡ some y.ino)
            × (member (link_all es (turn x s)) y.parent y.ino ≡ true))
          x'
          (
            link_all_kept es (turn x s) x.parent x.name_hash x.ino known (k not_root).0 found,
            link_all-member es (turn x s) x.parent x.ino in_set,
          )
    | inr other ↦ link_all-entry es (turn x s) i e known (ground (arith, g, other)) r
  ]

  entry-IsKnown : (i : ℕ) (e : Entry) → SortedMap.get i s₀.entries ≡ some e → IsKnown e
  entry-IsKnown i e g r =
      let key = linked.keyed i e g in
      let not_root : i ≢ root_ino = λ z. r (key ∙ z) in
      (
        linked.named i e g not_root ∙ ap (λ k. some k) (sym key),
        ap (member s₀ e.parent) key ∙ linked.listed i e g not_root,
      )

  entries-AllKnown :
      (es : SortedMap Entry)
      → IsSorted es
      → ((i : ℕ) (e : Entry) → SortedMap.get i es ≡ some e → SortedMap.get i s₀.entries ≡ some e)
      → AllKnown es
  unfolding SortedMap.get
  entries-AllKnown [] sorted at = tt
  entries-AllKnown ((j, e) ∷ es) sorted at = (
    entry-IsKnown j e (at j e (ground arith)),
    entries-AllKnown es (tail_sorted j es sorted)
        (λ i x g. let above = get-Above j i x es sorted g in at i x (ground (arith, g, above))),
  )
    where
      tail_sorted : (low : ℕ) (m : SortedMap Entry) → Above low m → IsSorted m
      tail_sorted low [] a = tt
      tail_sorted low ((k, y) ∷ m) (less, a) = a

  empty-IsBelow : IsBelow (record s₀ { children = []; by_parent = [] })
  unfolding child member siblings Children.lookup SortedMap.get
  empty-IsBelow = record {
    names = λ q h i c. absurd (ground arith);
    members = λ q i m. absurd (ground arith);
  }

  module _ (sorted : IsSorted s₀.entries) where
    abbrev rebuilt : Inner
    rebuilt = link_all s₀.entries (record s₀ { children = []; by_parent = [] })

    known_all : AllKnown s₀.entries
    known_all = entries-AllKnown s₀.entries sorted (λ i e g. g)

    rebuilt-IsBelow : IsBelow rebuilt
    rebuilt-IsBelow = link_all-IsBelow s₀.entries _ known_all empty-IsBelow

    child-rebuilt : (q : ℕ) (h : Bytes) → child rebuilt q h ≡ child s₀ q h
    child-rebuilt q h = elim (Option-cases (child s₀ q h)) [
      | inl missing ↦ elim (Option-cases (child rebuilt q h)) [
        | inl missing' ↦ missing' ∙ sym missing
        | inr (i, c) ↦ absurd (cc (missing, rebuilt-IsBelow.names q h i c))
      ]
      | inr (i, c) ↦
          let n = linked.names q h i c in
          let key = linked.keyed i n.listed.entry n.listed.present in
          let own =
            (link_all-entry s₀.entries (record s₀ { children = []; by_parent = [] }) i
              n.listed.entry known_all n.listed.present (λ z. n.listed.not_root (sym key ∙ z))).0 in
          cc (own, key, n.listed.parent, n.hash, c)
    ]

    member-rebuilt : (q i : ℕ) → member rebuilt q i ≡ member s₀ q i
    member-rebuilt q i = elim (Bool-cases (member s₀ q i)) [
      | inl there ↦
          let l = linked.members q i there in
          let key = linked.keyed i l.entry l.present in
          let own =
            (link_all-entry s₀.entries (record s₀ { children = []; by_parent = [] }) i l.entry
              known_all l.present (λ z. l.not_root (sym key ∙ z))).1 in
          cc (own, key, l.parent, there)
      | inr missing ↦ elim (Bool-cases (member rebuilt q i)) [
        | inl m ↦ absurd (cc (missing, rebuilt-IsBelow.members q i m))
        | inr missing' ↦ missing' ∙ sym missing
      ]
    ]

-- In an index with right tables and ascending keys, `rebuild_indexes` makes from the entries alone the tables
-- that the other operations have kept: each name leads where it led, and each directory has the members it had.
pub rebuild_indexes-eq :
    (s : Inner)
    → IsLinked s
    → IsSorted s.entries
    → ((q : ℕ) (h : Bytes) → child (rebuild_indexes s) q h ≡ child s q h)
      × ((q i : ℕ) → member (rebuild_indexes s) q i ≡ member s q i)
unfolding rebuild_indexes
rebuild_indexes-eq s linked sorted = (child-rebuilt s linked sorted, member-rebuilt s linked sorted)
