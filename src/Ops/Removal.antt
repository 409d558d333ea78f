-- ===== src/Ops/Removal.antt =====
-- What `unlink` and `rmdir` do to the index: the entry that was found is gone, the others stay, and the
-- lookup tables are still those of the entries.
use pqfs.Common.{
  ℕ, ◌≡◌, ◌≢◌, refl, ap, sym, ◌∙◌, Bytes, Bool, true, false, none, some, Result, ok, err, arith,
  if◌then◌else◌, ◌==◌, Option-cases, inl, inr, Bool-cases, subst,
}
use pqfs.Common.SortedMap
use pqfs.Common.Exec.{and_then, ◌>>◌}
use pqfs.Crypto.Primitives.{Primitives}
use pqfs.Crypto.Keys.{Crypto}
use pqfs.Crypto.Aead.{encrypt}
use pqfs.Backend.{Backend, FilePath, exists, remove_file}
use pqfs.Index.Entry.{Entry}
use pqfs.Index.State.{Inner, root_ino, siblings, remove_entry, has_children}
use pqfs.Index.Tables.{child, member}
use pqfs.Index.Invariant.{IsLinked}
use pqfs.Index.Updates.{remove_entry-IsLinked}
use pqfs.Index.Names.{find_child, hash_filename, with_name}
use pqfs.Index.Persist.{IndexCodec, Mount, on_disk, save_index, replace_index}
use pqfs.Ops.Tree.{is_dir, drop_data, unlink, rmdir}

-- The flag is no part of the tables.
pub flagged : (s : Inner) (flag : Bool) → IsLinked s → IsLinked (record s { dirty = flag })
unfolding child member siblings
flagged s flag h = record {
  keyed = h.keyed;
  named = h.named;
  listed = h.listed;
  names = h.names;
  members = h.members;
}

module _ (p : Primitives) (codec : IndexCodec) (crypto : Crypto) where
  finish :
      (m : Mount) (r : Result (Unit {0}) × Backend)
      → (flag : Bool) × ((and_then
            (r.0, record m { backend = r.1 })
            (λ _ s. (ok tt, record s { inner = record (s.inner) { dirty = false } }))).1.inner
          ≡ record (m.inner) { dirty = flag })
  finish m (ok x, b) = (false, refl)
  finish m (err e, b) = ((m.inner).dirty, refl)

  start :
      (m : Mount) (r : Result Bytes × ℕ)
      → (flag : Bool) × ((and_then
            (r.0, record m { backend = record (m.backend) { draws = r.1 } })
            (λ ciphertext.
              on_disk (replace_index p codec ciphertext)
              >> (λ s. (ok tt, record s { inner = record (s.inner) { dirty = false } })))).1.inner
          ≡ record (m.inner) { dirty = flag })
  start m (ok c, n) =
      let b = record (m.backend) { draws = n } in
      finish (record m { backend = b }) (replace_index p codec c b)
  start m (err e, n) = ((m.inner).dirty, refl)

  -- `save_index`, when it fails too, changes at most the flag of the index.
  pub save_index-inner :
      (m : Mount)
      → (flag : Bool) × ((save_index p codec crypto m).1.inner ≡ record (m.inner) { dirty = flag })
  unfolding save_index
  save_index-inner m =
      start m (encrypt p crypto.cipher (codec.serialize (m.inner).entries) (m.backend).draws)

  with_name-eq : (name : Bytes) (e e' : Entry) → with_name p crypto name e ≡ some e' → e ≡ e'
  unfolding with_name
  with_name-eq name e e' h = ground (arith, h)

  -- What a lookup finds is an entry of the index, and not the root.
  pub find_child-Named :
      (s : Inner) (parent : ℕ) (name : Bytes) (e : Entry)
      → IsLinked s
      → find_child p crypto parent name s ≡ some e
      → (SortedMap.get e.ino s.entries ≡ some e) × (e.parent ≡ parent) × (e.ino ≢ root_ino)
  unfolding find_child
  find_child-Named s parent name e linked found =
      elim (Option-cases (child s parent (hash_filename p crypto name))) [
        | inl missing ↦ absurd (unfold child in ground (arith, found, missing))
        | inr (i, there) ↦
            let n = linked.names parent (hash_filename p crypto name) i there in
            let at : with_name p crypto name n.listed.entry ≡ some e =
              unfold child in ground (arith, found, there, n.listed.present) in
            let same : n.listed.entry ≡ e = with_name-eq name n.listed.entry e at in
            let key : e.ino ≡ i = linked.keyed i e (n.listed.present ∙ ap (λ x. some x) same) in
            (
              ap (λ k. SortedMap.get k s.entries) key ∙ n.listed.present ∙ ap (λ x. some x) same,
              ap (λ (x : Entry). x.parent) (sym same) ∙ n.listed.parent,
              λ root. n.listed.not_root (sym key ∙ root),
            )
      ]

  -- The index without an inode: the other entries are as they were, and the tables are the entries'.
  abbrev pub IsWithout : ℕ → Inner → Inner → Type 0
  IsWithout ino s s' =
      IsLinked s'
      × ((j : ℕ)
          → SortedMap.get j s'.entries ≡ (if j == ino then none else SortedMap.get j s.entries))

  -- `save_index` after the removal, with whatever became of the backend.
  removed_saved :
      (m : Mount) (ino : ℕ) (b : Backend)
      → IsLinked m.inner
      → ino ≢ root_ino
      → IsWithout ino m.inner
          (save_index p codec crypto
            (record { inner = (remove_entry ino m.inner).1; backend = b })).1.inner
  removed_saved m ino b linked not_root =
      let r = remove_entry-IsLinked m.inner ino linked not_root in
      let saved = save_index-inner (record { inner = (remove_entry ino m.inner).1; backend = b }) in
      subst (IsWithout ino m.inner) (sym saved.1) (flagged _ saved.0 r.0, r.2)

  pub drop_data_run :
      (ino : ℕ) (m : Mount) → (b : Backend) × (drop_data ino m ≡ (ok tt, record m { backend = b }))
  unfolding drop_data
  drop_data_run ino m = elim (Bool-cases (exists (FilePath.data_file ino) m.backend)) [
    | inl there ↦ ((remove_file (FilePath.data_file ino) m.backend).1, rw there)
    | inr missing ↦ (m.backend, rw missing)
  ]

  -- In an index with right tables, `unlink` of a name that leads to a file or a link takes its entry out and
  -- leaves the others, and the tables stay right, also if the index cannot be saved.
  pub unlink-IsWithout :
      (m : Mount) (parent : ℕ) (name : Bytes) (e : Entry)
      → IsLinked m.inner
      → find_child p crypto parent name m.inner ≡ some e
      → is_dir e.kind ≡ false
      → IsWithout e.ino m.inner (unlink p codec crypto parent name m).1.inner
  unfolding unlink
  unlink-IsWithout m parent name e linked found not_dir =
      let dropped = drop_data_run e.ino (record m { inner = (remove_entry e.ino m.inner).1 }) in
      rw (found, not_dir)
        (rw dropped.1 (
          removed_saved m e.ino dropped.0 linked
            (find_child-Named m.inner parent name e linked found).2))

  -- In an index with right tables, `rmdir` of a name that leads to a directory without children takes its
  -- entry out and leaves the others, and the tables stay right, also if the index cannot be saved.
  pub rmdir-IsWithout :
      (m : Mount) (parent : ℕ) (name : Bytes) (e : Entry)
      → IsLinked m.inner
      → find_child p crypto parent name m.inner ≡ some e
      → is_dir e.kind ≡ true
      → has_children e.ino m.inner ≡ false
      → IsWithout e.ino m.inner (rmdir p codec crypto parent name m).1.inner
  unfolding rmdir
  rmdir-IsWithout m parent name e linked found dir childless =
      rw (found, dir, childless)
        (removed_saved m e.ino m.backend linked
          (find_child-Named m.inner parent name e linked found).2)
