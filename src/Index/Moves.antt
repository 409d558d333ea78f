-- ===== src/Index/Moves.antt =====
-- `relink` on a well-formed index: the name that an entry had is free, and the new one leads to it.
use pqfs.Common.{
  ℕ, ◌≡◌, ◌≢◌, refl, sym, ◌∙◌, ap, subst, Bytes, false, none, some, ok, arith, ◌==◌, ==_refl,
  if◌then◌else◌, Bool-cases, inl, inr,
}
use pqfs.Common.SortedMap
use pqfs.Common.SortedMap.{IsSorted, get-insert}
use pqfs.Common.SortedMap.Order.{insert-IsSorted}
use pqfs.Crypto.Primitives.{Primitives}
use pqfs.Crypto.Keys.{Crypto, same_bytes}
use pqfs.Index.Children.{same_name}
use pqfs.Index.Entry.{Entry}
use pqfs.Index.State.{Inner, root_ino, link, unlink_index, relink, renamed}
use pqfs.Index.Tables.{child, child-link, child-unlink}
use pqfs.Index.Updates.{relink-IsLinked, relink-some}
use pqfs.Index.Names.{find_child, hash_filename, decrypt_filename}
use pqfs.Index.WellFormed.{IsIndex, find_child-entry, find_child-none}
use pqfs.Index.Namespace.{find_child-eq, Named-other}

module _ (p : Primitives) (crypto : Crypto) (now : ℕ) (s : Inner) (index : IsIndex p crypto s)
    (e : Entry) (not_root : e.ino ≢ root_ino) (there : SortedMap.get e.ino s.entries ≡ some e)
    (parent : ℕ) (name blob : Bytes) (readable : decrypt_filename p crypto blob ≡ ok name)
    (free : (i : ℕ) → child s parent (hash_filename p crypto name) ≡ some i → i ≡ e.ino) where
  abbrev hash : Bytes
  hash = hash_filename p crypto name

  abbrev pub moved : Entry
  moved = renamed now parent hash blob e

  abbrev pub after : Inner
  after = relink now e.ino parent hash blob s

  after_lem :
      after
      ≡ let s' = unlink_index e.ino e.parent e.name_hash s in
        link e.ino parent hash (record s' { entries = SortedMap.insert e.ino moved s'.entries })
  after_lem = relink-some now s e.ino parent hash blob e there

  relink-next : after.next_ino ≡ s.next_ino
  unfolding link unlink_index
  relink-next = ap (λ (x : Inner). x.next_ino) after_lem

  relink-get :
      (j : ℕ)
      → SortedMap.get j after.entries
        ≡ (if j == e.ino then some moved else SortedMap.get j s.entries)
  unfolding renamed
  relink-get = (relink-IsLinked now s e.ino parent hash blob e index.linked not_root there free).1

  child-relink :
      (q : ℕ) (h : Bytes)
      → child after q h ≡ (
          if same_name q h parent hash
          then some e.ino
          else if same_name q h e.parent e.name_hash
          then none
          else child s q h)
  child-relink q h =
      ap (λ (x : Inner). child x q h) after_lem
      ∙ rw child-link (
          ap (λ c. if same_name q h parent hash then some e.ino else c)
            (unfold child in
              child-unlink e.ino e.parent e.name_hash s q h
                (index.linked.named e.ino e there not_root)))

  pub relink-IsIndex : IsIndex p crypto after
  unfolding renamed
  relink-IsIndex =
      let linked =
        (relink-IsLinked now s e.ino parent hash blob e index.linked not_root there free).0 in
      record {
        linked = linked;
        sorted =
            subst (λ (x : Inner). IsSorted x.entries) (sym after_lem)
              (unfold link in
                unfold unlink_index in insert-IsSorted e.ino moved s.entries index.sorted);
        below = λ i x g. rw relink-next (elim (Bool-cases (i == e.ino)) [
          | inl same ↦ let i' : i ≡ e.ino = ground arith in rw i' (index.below e.ino e there)
          | inr other ↦ index.below i x (ground (arith, g, other, relink-get i))
        ]);
        root_below = rw relink-next index.root_below;
        readable = λ i x g r. elim (Bool-cases (i == e.ino)) [
          | inl same ↦
              let found : some moved ≡ some x = ground (arith, g, same, relink-get i) in
              let x' : moved ≡ x = cc found in
              subst
                (λ (y : Entry).
                  (n : Bytes) × (decrypt_filename p crypto y.name_encrypted ≡ ok n)
                  × (hash_filename p crypto n ≡ y.name_hash))
                x' (name, readable, refl)
          | inr other ↦ index.readable i x (ground (arith, g, other, relink-get i)) r
        ];
      }

  -- The new name leads to the entry, the old one to nothing, unless it is the new one, and the others
  -- lead where they led.
  pub find_child-relink :
      (q : ℕ) (n : Bytes)
      → find_child p crypto q n after ≡ (
          if same_name q (hash_filename p crypto n) parent hash
          then (if same_bytes name n then some moved else none)
          else if same_name q (hash_filename p crypto n) e.parent e.name_hash
          then none
          else find_child p crypto q n s)
  unfolding renamed
  find_child-relink q n =
      let h = hash_filename p crypto n in
      elim (Bool-cases (same_name q h parent hash)) [
        | inl new ↦ rw new (
            find_child-entry p crypto after q n e.ino moved name (child-relink q h ∙ rw new)
              (relink-get e.ino ∙ rw ==_refl) readable)
        | inr not_new ↦ elim (Bool-cases (same_name q h e.parent e.name_hash)) [
          | inl old ↦
              rw (not_new, old)
                (find_child-none p crypto after q n (child-relink q h ∙ rw (not_new, old)))
          | inr other ↦
              rw (not_new, other)
                (find_child-eq p crypto s after q n (child-relink q h ∙ rw (not_new, other)) (λ i c.
                  let n' = index.linked.names q h i c in
                  let apart : (i == e.ino) ≡ false =
                    Named-other s.entries i q h e.ino e n' there other in
                  relink-get i ∙ rw apart))
        ]
      ]
