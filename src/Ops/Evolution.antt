-- ===== src/Ops/Evolution.antt =====
-- What no handler of the name space touches: the content key, the size and the kind of an entry. An inode
-- number is never used again.
pub mod Handlers
pub mod Edits
use pqfs.Common.{
  ℕ, ◌+◌, ◌<◌, ◌≤◌, ◌≡◌, ◌≢◌, refl, sym, ap, subst, ◌∙◌, ◌⊎◌, Bytes, Bool, true, false, Option,
  none, some, Result, ok, err, Bool-cases, Option-cases, inl, inr, if◌then◌else◌, arith, ◌==◌,
}
use pqfs.Common.SortedMap
use pqfs.Common.SortedMap.{get-insert, get-remove}
use pqfs.Index.Entry.{Entry}
use pqfs.Index.State.{
  Inner, root_ino, link, unlink_index, unlink_previous, insert_entry, remove_entry, relink, renamed,
  allocate_ino,
}
use pqfs.Index.Updates.{remove_entry-some, relink-some}

-- The same content: key, size and kind.
abbrev pub IsSameContent : Entry → Entry → Type 0
IsSameContent x y = (x.content_key ≡ y.content_key) × (x.size ≡ y.size) × (x.kind ≡ y.kind)

-- From one index to a later one: an entry is one with a number from `n` on, or it was there with the same
-- content.
pub record Evolves (n : ℕ) (s s' : Inner) : Type 0 where
  pub next : s.next_ino ≤ s'.next_ino
  pub old :
      (i : ℕ) (x : Entry)
      → SortedMap.get i s'.entries ≡ some x
      → (n ≤ i) ⊎ ((y : Entry) × (SortedMap.get i s.entries ≡ some y) × IsSameContent x y)

pub Evolves-refl : (n : ℕ) (s : Inner) → Evolves n s s
Evolves-refl n s = record { next = omega arith; old = λ i x h. inr (x, h, (refl, refl, refl)) }

-- A change of one entry, at most, by one with a new number or the same content.
pub Evolves-step :
    (n : ℕ) (s s' s'' : Inner)
    → Evolves n s s'
    → s'.next_ino ≤ s''.next_ino
    → ((i : ℕ) (x : Entry)
        → SortedMap.get i s''.entries ≡ some x
        → (n ≤ i) ⊎ ((y : Entry) × (SortedMap.get i s'.entries ≡ some y) × IsSameContent x y))
    → Evolves n s s''
Evolves-step n s s' s'' f next old = record {
  next = omega (arith, f.next, next);
  old = λ i x h. elim (old i x h) [
    | inl new ↦ inl new
    | inr (y, at, k) ↦ elim (f.old i y at) [
      | inl new ↦ inl new
      | inr (z, at', k') ↦ inr (z, at', (k.0 ∙ k'.0, k.1 ∙ k'.1, k.2 ∙ k'.2))
    ]
  ];
}

-- One entry is replaced by one with the same content, or added with a new number.
pub insert_step :
    (n : ℕ) (s s' : Inner) (e : Entry) (ino : ℕ)
    → (n ≤ ino) ⊎ ((y : Entry) × (SortedMap.get ino s.entries ≡ some y) × IsSameContent e y)
    → ((i : ℕ)
        → SortedMap.get i s'.entries ≡ (if i == ino then some e else SortedMap.get i s.entries))
    → (i : ℕ) (x : Entry) → SortedMap.get i s'.entries ≡ some x
    → (n ≤ i) ⊎ ((y : Entry) × (SortedMap.get i s.entries ≡ some y) × IsSameContent x y)
insert_step n s s' e ino fits entries i x h = elim (Bool-cases (i == ino)) [
  | inl same ↦
      let i' : ino ≡ i = ground arith in
      let x' : e ≡ x = ground (arith, h, same, entries i) in
      subst
        (λ k. (n ≤ k) ⊎ ((y : Entry) × (SortedMap.get k s.entries ≡ some y) × IsSameContent x y)) i'
        (subst
          (λ z.
            (n ≤ ino) ⊎ ((y : Entry) × (SortedMap.get ino s.entries ≡ some y) × IsSameContent z y))
          x' fits)
  | inr other ↦ inr (x, ground (arith, h, other, entries i), (refl, refl, refl))
]

unlink_index-same :
    (ino parent : ℕ) (hash : Bytes) (s : Inner)
    → ((unlink_index ino parent hash s).entries ≡ s.entries)
      × ((unlink_index ino parent hash s).next_ino ≡ s.next_ino)
unfolding unlink_index
unlink_index-same ino parent hash s = (refl, refl)

unlink_previous-same :
    (ino : ℕ) (o : Option Entry) (s : Inner)
    → ((unlink_previous ino o s).entries ≡ s.entries)
      × ((unlink_previous ino o s).next_ino ≡ s.next_ino)
unfolding unlink_previous
unlink_previous-same ino none s = (refl, refl)
unlink_previous-same ino (some e) s = unlink_index-same ino e.parent e.name_hash s

link_unless-same :
    (root : Bool) (e : Entry) (s : Inner)
    → ((if root then s else link e.ino e.parent e.name_hash s).entries ≡ s.entries)
      × ((if root then s else link e.ino e.parent e.name_hash s).next_ino ≡ s.next_ino)
unfolding link
link_unless-same true e s = (refl, refl)
link_unless-same false e s = (refl, refl)

pub insert_entry-entries :
    (s : Inner) (e : Entry)
    → ((insert_entry e s).entries ≡ SortedMap.insert e.ino e s.entries)
      × ((insert_entry e s).next_ino ≡ s.next_ino)
unfolding insert_entry
insert_entry-entries s e =
    let s' = unlink_previous e.ino (SortedMap.get e.ino s.entries) s in
    let previous = unlink_previous-same e.ino (SortedMap.get e.ino s.entries) s in
    let linked = link_unless-same (e.ino == root_ino) e s' in
    (ap (SortedMap.insert e.ino e) (linked.0 ∙ previous.0), linked.1 ∙ previous.1)

pub insert_entry-Evolves :
    (n : ℕ) (s s' : Inner) (e : Entry)
    → Evolves n s s'
    → n ≤ e.ino
    → Evolves n s (insert_entry e s')
insert_entry-Evolves n s s' e f new =
    let (entries, next) = insert_entry-entries s' e in
    Evolves-step n s s' (insert_entry e s') f (omega (arith, next)) (
      insert_step n s' (insert_entry e s') e e.ino (inl new)
        (λ i. ap (SortedMap.get i) entries ∙ get-insert i e.ino e s'.entries))

remove_entry-none :
    (s : Inner) (ino : ℕ) → SortedMap.get ino s.entries ≡ none → remove_entry ino s ≡ (none, s)
unfolding remove_entry
remove_entry-none s ino missing = rw (missing, remove_entry)

pub remove_entry-Evolves :
    (n : ℕ) (s s' : Inner) (ino : ℕ) → Evolves n s s' → Evolves n s (remove_entry ino s').1
remove_entry-Evolves n s s' ino f = elim (Option-cases (SortedMap.get ino s'.entries)) [
  | inl missing ↦ rw (remove_entry-none s' ino missing) f
  | inr (e, there) ↦ rw (remove_entry-some s' ino e there) (
      Evolves-step n s s'
        (record (unlink_index ino e.parent e.name_hash s') {
          entries = SortedMap.remove ino s'.entries;
        })
        f (omega (arith, (unlink_index-same ino e.parent e.name_hash s').1))
        (λ i x h. inr (x, ground (arith, h, get-remove i ino s'.entries), (refl, refl, refl))))
]

relink-none :
    (s : Inner) (now ino parent : ℕ) (hash blob : Bytes)
    → SortedMap.get ino s.entries ≡ none
    → relink now ino parent hash blob s ≡ s
unfolding relink
relink-none s now ino parent hash blob missing = rw (missing, relink)

renamed-IsSameContent :
    (now parent : ℕ) (hash blob : Bytes) (e : Entry)
    → IsSameContent (renamed now parent hash blob e) e
unfolding renamed
renamed-IsSameContent now parent hash blob e = (refl, refl, refl)

pub relink-Evolves :
    (n : ℕ) (s s' : Inner) (now ino parent : ℕ) (hash blob : Bytes)
    → Evolves n s s'
    → Evolves n s (relink now ino parent hash blob s')
unfolding link
relink-Evolves n s s' now ino parent hash blob f =
    elim (Option-cases (SortedMap.get ino s'.entries)) [
      | inl missing ↦ rw (relink-none s' now ino parent hash blob missing) f
      | inr (e, there) ↦
          let unlinked = unlink_index-same ino e.parent e.name_hash s' in
          let e' = renamed now parent hash blob e in
          let u = unlink_index ino e.parent e.name_hash s' in
          let s'' =
            link ino parent hash (record u { entries = SortedMap.insert ino e' u.entries }) in
          rw (relink-some now s' ino parent hash blob e there) (
            Evolves-step n s s' s'' f (omega (arith, unlinked.1)) (
              insert_step n s' s'' e' ino
                (inr (e, there, renamed-IsSameContent now parent hash blob e))
                (λ i.
                  ap (λ t. SortedMap.get i (SortedMap.insert ino e' t)) unlinked.0
                  ∙ get-insert i ino e' s'.entries)))
    ]

pub allocate_ino-Evolves : (n : ℕ) (s s' : Inner) → Evolves n s s' → Evolves n s (allocate_ino s').1
unfolding allocate_ino
allocate_ino-Evolves n s s' f =
    Evolves-step n s s' (allocate_ino s').1 f (omega arith)
      (λ i x h. inr (x, h, (refl, refl, refl)))
