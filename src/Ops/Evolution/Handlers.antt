-- ===== src/Ops/Evolution/Handlers.antt =====
-- Every handler that changes the index, but for a change of a file's size, leaves the content key, the size and
-- the kind of each entry that it keeps, and uses no inode number again.
use pqfs.Common.{
  ℕ, ◌≤◌, sym, subst, Bytes, Bool, Result, arith, Bool-cases, Option-cases, inl, inr, bail_if,
  ok_or, eexist, enoent, not, ◌==◌, ◌&&◌, enotdir, einval, eisdir, enotempty,
}
use pqfs.Common.SortedMap
use pqfs.Common.SortedMap.{get-insert}
use pqfs.Common.Exec.{Exec}
use pqfs.Common.After.{After, After-ok, After-err, After-bind, After-state, After-lift}
use pqfs.Crypto.Primitives.{Primitives}
use pqfs.Crypto.Keys.{Crypto, random_key}
use pqfs.Crypto.Aead.{encrypt}
use pqfs.Crypto.Volume.Store.{with_draws}
use pqfs.Backend.{Backend}
use pqfs.Index.Entry.{Entry}
use pqfs.Index.State.{Inner, allocate_ino, insert_entry, remove_entry, relink, has_children}
use pqfs.Index.Names.{find_child, hash_filename, encrypt_filename}
use pqfs.Index.Persist.{IndexCodec, Mount, on_disk, save_index}
use pqfs.Ops.Data.{as_eio}
use pqfs.Ops.Tree.{
  Caller, is_dir, is_taken, is_descendant_of, may_replace, drop_data, insert_saved, create, mkdir,
  symlink, unlink, rmdir, make_room, rename,
}
use pqfs.Ops.Removal.{save_index-inner}
use pqfs.Ops.Unlinking.{drop_data-After}
use pqfs.Ops.Steps.{IsKept, as_eio-After, state-After}
use pqfs.Ops.Evolution.{
  Evolves, Evolves-refl, insert_entry-Evolves, remove_entry-Evolves, relink-Evolves,
  allocate_ino-Evolves,
}

-- The computation leaves an index that evolved, whatever came of it.
abbrev pub Keeps : {A : Type 0} → ℕ → Inner → Result A × Mount → Type 0
Keeps n s = After (λ _ m'. Evolves n s m'.inner) (λ m'. Evolves n s m'.inner)

module _ (p : Primitives) (codec : IndexCodec) (crypto : Crypto) (n : ℕ) (s : Inner) where
  disk-Keeps :
      {A : Type 0} (x : Exec Backend A) (m : Mount) → Evolves n s m.inner → Keeps n s (on_disk x m)
  disk-Keeps x m h = state-After (λ m'. Evolves n s m'.inner) (on_disk x m) h

  flag_keeps :
      (s' : Inner) (flag : Bool) → Evolves n s s' → Evolves n s (record s' { dirty = flag })
  flag_keeps s' flag h = record { next = h.next; old = h.old }

  pub save-Keeps : (m : Mount) → Evolves n s m.inner → Keeps n s (save_index p codec crypto m)
  save-Keeps m h =
      let saved = save_index-inner p codec crypto m in
      state-After (λ m'. Evolves n s m'.inner) (save_index p codec crypto m)
        (subst (Evolves n s) (sym saved.1) (flag_keeps m.inner saved.0 h))

  saved-Keeps : (m : Mount) → Evolves n s m.inner → Keeps n s (as_eio (save_index p codec crypto) m)
  saved-Keeps m h = as_eio-After (save_index p codec crypto) m (save-Keeps m h)

  -- An entry with a number that was allocated after `s`.
  insert_saved-Keeps :
      (e : Entry) (m : Mount)
      → n ≤ e.ino
      → Evolves n s m.inner
      → Keeps n s (insert_saved p codec crypto e m)
  unfolding insert_saved
  insert_saved-Keeps e m new h =
      After-bind _ _
        (saved-Keeps (record m { inner = insert_entry e m.inner })
          (insert_entry-Evolves n s m.inner e h new))
        (λ _ m' h'. After-ok _ m' h')

  drop_data-Keeps : (ino : ℕ) (m : Mount) → Evolves n s m.inner → Keeps n s (drop_data ino m)
  drop_data-Keeps ino m h =
      let kept = drop_data-After p codec crypto ino m in
      state-After (λ m'. Evolves n s m'.inner) (drop_data ino m)
        (subst (Evolves n s)
          (sym (After-state (IsKept m) (drop_data ino m) (λ _ m' k. k) (λ m' k. k) kept)) h)

  name-Keeps :
      (name : Bytes) (m : Mount)
      → Evolves n s m.inner
      → Keeps n s (as_eio (on_disk (with_draws (encrypt_filename p crypto name))) m)
  name-Keeps name m h =
      as_eio-After (on_disk (with_draws (encrypt_filename p crypto name))) m
        (disk-Keeps (with_draws (encrypt_filename p crypto name)) m h)

  seal-Keeps :
      (key : Bytes) (m : Mount)
      → Evolves n s m.inner
      → Keeps n s (as_eio (on_disk (with_draws (encrypt p crypto.cipher key))) m)
  seal-Keeps key m h =
      as_eio-After (on_disk (with_draws (encrypt p crypto.cipher key))) m
        (disk-Keeps (with_draws (encrypt p crypto.cipher key)) m h)

  make_room-Keeps :
      (source : Entry) (newparent : ℕ) (newname : Bytes) (m : Mount)
      → Evolves n s m.inner
      → Keeps n s (make_room p codec crypto source newparent newname m)
  unfolding make_room
  make_room-Keeps source newparent newname m h =
      elim (Option-cases (find_child p crypto newparent newname m.inner)) [
        | inl missing ↦ rw (missing, make_room) (After-ok tt m h)
        | inr (existing, there) ↦ elim (Bool-cases (existing.ino == source.ino)) [
          | inl own ↦ rw (there, own, make_room) (After-ok tt m h)
          | inr other ↦
              rw (there, other, make_room)
                (After-bind _ _
                  (After-lift (may_replace source.kind existing m.inner) m (λ _ _. h) h)
                  (λ _ t h'.
                    drop_data-Keeps existing.ino
                      (record t { inner = (remove_entry existing.ino t.inner).1 })
                      (remove_entry-Evolves n s t.inner existing.ino h')))
        ]
      ]

module _ (p : Primitives) (codec : IndexCodec) (crypto : Crypto) (m : Mount) where
  abbrev pub start : ℕ
  start = (m.inner).next_ino

  same : Evolves start m.inner m.inner
  same = Evolves-refl start m.inner

  pub create-Keeps :
      (caller : Caller) (parent : ℕ) (name : Bytes) (mode : ℕ)
      → Keeps start m.inner (create p codec crypto caller parent name mode m)
  unfolding create allocate_ino
  create-Keeps caller parent name mode =
      elim (Bool-cases (is_taken p codec crypto parent name m.inner)) [
        | inl taken ↦ rw taken (After-err eexist m same)
        | inr free ↦ rw free (
            After-bind _ _
              (name-Keeps p codec crypto start m.inner name
                (record m { inner = (allocate_ino m.inner).1 })
                (allocate_ino-Evolves start m.inner m.inner same))
              (λ blob m₁ h₁.
                After-bind _ _
                  (disk-Keeps p codec crypto start m.inner (with_draws (random_key p)) m₁ h₁)
                  (λ key m₂ h₂.
                    After-bind _ _ (seal-Keeps p codec crypto start m.inner key m₂ h₂)
                      (λ content_key m₃ h₃.
                        insert_saved-Keeps p codec crypto start m.inner _ m₃ (omega arith) h₃))))
      ]

  pub mkdir-Keeps :
      (caller : Caller) (parent : ℕ) (name : Bytes) (mode : ℕ)
      → Keeps start m.inner (mkdir p codec crypto caller parent name mode m)
  unfolding mkdir allocate_ino
  mkdir-Keeps caller parent name mode =
      elim (Bool-cases (is_taken p codec crypto parent name m.inner)) [
        | inl taken ↦ rw taken (After-err eexist m same)
        | inr free ↦ rw free (
            After-bind _ _
              (name-Keeps p codec crypto start m.inner name
                (record m { inner = (allocate_ino m.inner).1 })
                (allocate_ino-Evolves start m.inner m.inner same))
              (λ blob m₁ h₁. insert_saved-Keeps p codec crypto start m.inner _ m₁ (omega arith) h₁))
      ]

  pub symlink-Keeps :
      (caller : Caller) (parent : ℕ) (name target : Bytes)
      → Keeps start m.inner (symlink p codec crypto caller parent name target m)
  unfolding symlink allocate_ino
  symlink-Keeps caller parent name target =
      elim (Bool-cases (is_taken p codec crypto parent name m.inner)) [
        | inl taken ↦ rw taken (After-err eexist m same)
        | inr free ↦ rw free (
            After-bind _ _ (name-Keeps p codec crypto start m.inner target m same) (λ link m₀ h₀.
              After-bind _ _
                (name-Keeps p codec crypto start m.inner name
                  (record m₀ { inner = (allocate_ino m₀.inner).1 })
                  (allocate_ino-Evolves start m.inner m₀.inner h₀))
                (λ blob m₁ h₁.
                  insert_saved-Keeps p codec crypto start m.inner _ m₁ (omega (arith, h₀.next))
                    h₁)))
      ]

  pub unlink-Keeps :
      (parent : ℕ) (name : Bytes) → Keeps start m.inner (unlink p codec crypto parent name m)
  unfolding unlink
  unlink-Keeps parent name = elim (Option-cases (find_child p crypto parent name m.inner)) [
    | inl missing ↦ rw missing (After-err enoent m same)
    | inr (e, found) ↦ elim (Bool-cases (is_dir e.kind)) [
      | inl dir ↦ rw (found, dir) (After-err eisdir m same)
      | inr file ↦
          rw (found, file)
            (After-bind _ _
              (drop_data-Keeps p codec crypto start m.inner e.ino
                (record m { inner = (remove_entry e.ino m.inner).1 })
                (remove_entry-Evolves start m.inner m.inner e.ino same))
              (λ _ m₁ h₁. saved-Keeps p codec crypto start m.inner m₁ h₁))
    ]
  ]

  pub rmdir-Keeps :
      (parent : ℕ) (name : Bytes) → Keeps start m.inner (rmdir p codec crypto parent name m)
  unfolding rmdir
  rmdir-Keeps parent name = elim (Option-cases (find_child p crypto parent name m.inner)) [
    | inl missing ↦ rw missing (After-err enoent m same)
    | inr (e, found) ↦ elim (Bool-cases (is_dir e.kind)) [
      | inr file ↦ rw (found, file) (After-err enotdir m same)
      | inl dir ↦ elim (Bool-cases (has_children e.ino m.inner)) [
        | inl children ↦ rw (found, dir, children) (After-err enotempty m same)
        | inr childless ↦
            rw (found, dir, childless)
              (saved-Keeps p codec crypto start m.inner
                (record m { inner = (remove_entry e.ino m.inner).1 })
                (remove_entry-Evolves start m.inner m.inner e.ino same))
      ]
    ]
  ]

  pub rename-Keeps :
      (clock parent : ℕ) (name : Bytes) (newparent : ℕ) (newname : Bytes)
      → Keeps start m.inner (rename p codec crypto clock parent name newparent newname m)
  unfolding rename
  rename-Keeps clock parent name newparent newname =
      After-bind _ _
        (After-lift (ok_or (find_child p crypto parent name m.inner) enoent) m (λ _ _. same) same)
        (λ source m₁ h₁.
          After-bind _ _
            (After-lift (ok_or (SortedMap.get newparent (m₁.inner).entries) enoent) m₁ (λ _ _. h₁)
              h₁)
            (λ target m₂ h₂.
              After-bind _ _
                (After-lift (bail_if (not (is_dir target.kind)) enotdir) m₂ (λ _ _. h₂) h₂)
                (λ _ m₃ h₃.
                  After-bind _ _
                    (After-lift
                      (bail_if
                        (is_dir source.kind && is_descendant_of newparent source.ino m₃.inner)
                        einval)
                      m₃ (λ _ _. h₃) h₃)
                    (λ _ m₄ h₄.
                      After-bind _ _
                        (make_room-Keeps p codec crypto start m.inner source newparent newname m₄
                          h₄)
                        (λ _ m₅ h₅.
                          After-bind _ _ (name-Keeps p codec crypto start m.inner newname m₅ h₅)
                            (λ blob m₆ h₆.
                              saved-Keeps p codec crypto start m.inner
                                (record m₆ {
                                  inner =
                                      relink clock source.ino newparent
                                        (hash_filename p crypto newname) blob m₆.inner;
                                })
                                (relink-Evolves start m.inner m₆.inner clock source.ino newparent
                                  (hash_filename p crypto newname) blob h₆)))))))
