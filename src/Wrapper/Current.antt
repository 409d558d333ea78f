-- ===== src/Wrapper/Current.antt =====
-- No update is lost: the entry that a writing job works from stays the one in the index until the job commits.
use pqfs.Common.{
  ℕ, ◌<◌, ◌≡◌, ◌≢◌, refl, sym, ap, ◌∙◌, subst, Bytes, true, false, Option, none, some, Result, ok,
  err, Bool-cases, Option-cases, inl, inr, arith, ◌==◌,
}
use pqfs.Common.SortedMap
use pqfs.Crypto.Primitives.{Primitives, IsSound}
use pqfs.Crypto.Keys.{Crypto}
use pqfs.Index.Entry.{Entry}
use pqfs.Index.State.{Inner}
use pqfs.Index.Names.{hash_filename}
use pqfs.Index.Persist.{IndexCodec, Mount}
use pqfs.Index.WellFormed.{IsIndex}
use pqfs.Ops.Evolution.{IsSameContent, Evolves}
use pqfs.Ops.Evolution.Edits.{
  IsEdited, Any, IsEdited-next, IsEdited-elsewhere, commit_write-IsEdited, apply_setattr-IsEdited,
}
use pqfs.Wrapper.State.{Change, Task, Pqfs, assign, on_data, has_write_guard}
use pqfs.Wrapper.Jobs.{
  take_job, proceed, start_change, do_change, stored, store_change, commit, commit_change,
}
use pqfs.Wrapper.Steps.{handle, Work, Step, Reach, here, next}
use pqfs.Wrapper.Invariant.{Reach-IsIndex}
use pqfs.Wrapper.Locks.{IsExclusive, assign_here, assign_other, handle-workers, Reach-IsExclusive}
use pqfs.Wrapper.Handled.{handle-Evolves}

-- The entry that a task works from, while it holds the lock of the inode for writing.
unfoldable pub held : Option Task → Option (ℕ × Entry)
held (some (Task.changing ino e c)) = some (ino, e)
held (some (Task.changed ino e c result)) = some (ino, e)
held _ = none

-- The inode has no entry but one with this content, and gets no other.
abbrev pub IsCurrentEntry : ℕ → Entry → Inner → Type 0
IsCurrentEntry ino e s =
    (ino < s.next_ino) × ((x : Entry) → SortedMap.get ino s.entries ≡ some x → IsSameContent x e)

-- What each worker works from is current.
pub record IsCurrent (fs : Pqfs) : Type 0 where
  pub entry :
      (w ino : ℕ) (e : Entry)
      → held (fs.workers w) ≡ some (ino, e)
      → IsCurrentEntry ino e (fs.mount).inner

held-guard :
    (t : Option Task) (ino : ℕ) (e : Entry) → held t ≡ some (ino, e) → has_write_guard ino t ≡ true
unfolding held has_write_guard
held-guard none ino e h = absurd (ground (arith, h))
held-guard (some (Task.waiting job)) ino e h = absurd (ground (arith, h))
held-guard (some (Task.reading i x offset size)) ino e h = absurd (ground (arith, h))
held-guard (some (Task.changing i x c)) ino e h = ground (arith, h)
held-guard (some (Task.changed i x c result)) ino e h = ground (arith, h)

Evolves-IsCurrentEntry :
    (ino : ℕ) (e : Entry) (s s' : Inner)
    → Evolves s.next_ino s s'
    → IsCurrentEntry ino e s
    → IsCurrentEntry ino e s'
Evolves-IsCurrentEntry ino e s s' f (below, same) = (
  omega (arith, f.next, below),
  λ x h. elim (f.old ino x h) [
    | inl new ↦ absurd (omega (arith, new, below))
    | inr (y, at, k) ↦ let k' = same y at in (k.0 ∙ k'.0, k.1 ∙ k'.1, k.2 ∙ k'.2)
  ],
)

-- An edit of another entry.
elsewhere :
    (ino : ℕ) (s s' : Inner) (j : ℕ) (e : Entry)
    → IsEdited ino Any s s'
    → j ≢ ino
    → IsCurrentEntry j e s
    → IsCurrentEntry j e s'
elsewhere ino s s' j e edited other (below, same) =
    let apart : (j == ino) ≡ false = ground (arith, other) in
    (
      omega (arith, below, IsEdited-next ino Any s s' edited),
      λ x h. same x (sym (IsEdited-elsewhere ino Any s s' j edited apart) ∙ h),
    )

-- The entry that an index has is current.
found-IsCurrentEntry :
    (s : Inner) (ino : ℕ) (e : Entry) (i : ℕ) (x : Entry)
    → SortedMap.get ino s.entries ≡ some e
    → ino < s.next_ino
    → ◌≡◌ {A = Option (ℕ × Entry)} (some (ino, e)) (some (i, x))
    → IsCurrentEntry i x s
found-IsCurrentEntry s ino e i x there below same =
    let i' : ino ≡ i = cc same in
    let x' : e ≡ x = cc same in
    subst (λ k. IsCurrentEntry k x s) i'
      (subst (λ z. IsCurrentEntry ino z s) x'
        (
          below,
          λ y h.
              let y' : e ≡ y = cc (there, h) in
              subst (λ z. IsSameContent z e) y' (refl, refl, refl),
        ))

-- A worker gets another task.
assign-IsCurrent :
    (w : ℕ) (task : Option Task) (f : ℕ → Option Task) (s : Inner)
    → ((v ino : ℕ) (e : Entry)
        → (w == v) ≡ false
        → held (f v) ≡ some (ino, e)
        → IsCurrentEntry ino e s)
    → ((ino : ℕ) (e : Entry) → held task ≡ some (ino, e) → IsCurrentEntry ino e s)
    → (v ino : ℕ) (e : Entry) → held (assign w task f v) ≡ some (ino, e)
    → IsCurrentEntry ino e s
assign-IsCurrent w task f s others own v ino e h = elim (Bool-cases (w == v)) [
  | inl same ↦ own ino e (ap held (sym (assign_here w task f v same)) ∙ h)
  | inr other ↦ others v ino e other (ap held (sym (assign_other w task f v other)) ∙ h)
]

module _ (p : Primitives) (codec : IndexCodec) (crypto : Crypto) where
  commit-IsEdited :
      (clock ino : ℕ) (c : Change) (result : Bytes × ℕ) (m : Mount)
      → IsEdited ino Any m.inner (commit p crypto codec clock ino c result m).1.inner
  unfolding commit
  commit-IsEdited clock ino (Change.write offset input) result m =
      commit_write-IsEdited clock m.inner ino result.0 result.1
  commit-IsEdited clock ino (Change.truncate size a) result m =
      apply_setattr-IsEdited p crypto codec Any clock ino (record a { truncated = some result }) m
        (λ e there. tt)

  -- The other workers, while this one's step changes no entry.
  kept :
      (w : ℕ) (task : Option Task) (fs : Pqfs)
      → IsCurrent fs
      → ((ino : ℕ) (e : Entry) → held task ≡ some (ino, e) → IsCurrentEntry ino e (fs.mount).inner)
      → IsCurrent (proceed w task fs)
  unfolding proceed
  kept w task fs h own = record {
    entry =
        assign-IsCurrent w task fs.workers (fs.mount).inner (λ v ino e _ at. h.entry v ino e at)
          own;
  }

  -- The index is another with the same entries.
  moved :
      (fs : Pqfs) (m : Mount)
      → m.inner ≡ (fs.mount).inner
      → IsCurrent fs
      → IsCurrent (record fs { mount = m })
  moved fs m same h = record {
    entry = λ v ino e at. subst (IsCurrentEntry ino e) (sym same) (h.entry v ino e at);
  }

  start_change-IsCurrent :
      (w ino : ℕ) (c : Change) (fs : Pqfs)
      → IsIndex p crypto (fs.mount).inner
      → IsCurrent fs
      → IsCurrent (start_change w ino c fs).1
  unfolding held start_change
  start_change-IsCurrent w ino c fs index h =
      elim (Option-cases (SortedMap.get ino ((fs.mount).inner).entries)) [
        | inl missing ↦
            rw (missing, start_change) (kept w none fs h (λ i x k. absurd (ground (arith, k))))
        | inr (e, there) ↦
            rw (there, start_change)
              (kept w (some (Task.changing ino e c)) fs h (λ i x k.
                found-IsCurrentEntry (fs.mount).inner ino e i x there (index.below ino e there) k))
      ]

  stored-IsCurrent :
      (w ino : ℕ) (e : Entry) (c : Change) (fs : Pqfs)
      → fs.workers w ≡ some (Task.changing ino e c)
      → IsCurrent fs
      → (r : Result (Bytes × ℕ) × Mount) → (r.1).inner ≡ (fs.mount).inner
      → IsCurrent (stored p crypto w ino e c fs r).1
  unfolding held
  stored-IsCurrent w ino e c fs at h (ok result, m) same =
      let fs' : Pqfs = record fs { mount = m } in
      let h' = moved fs m same h in
      kept w (some (Task.changed ino e c result)) fs' h' (λ i x k. h'.entry w i x (ap held at ∙ k))
  stored-IsCurrent w ino e c fs at h (err x, m) same =
      kept w none (record fs { mount = m }) (moved fs m same h)
        (λ i x k. absurd (ground (arith, k)))

  Work-IsCurrent :
      {t u : Pqfs}
      → Work p codec crypto t u
      → IsIndex p crypto (t.mount).inner
      → IsExclusive t.workers
      → IsCurrent t
      → IsCurrent u
  unfolding take_job proceed store_change commit_change held
  Work-IsCurrent {t} (Work.take w job rest _ _ _) index alone h =
      let fs' : Pqfs = record t { queue = rest } in
      kept w (some (Task.waiting job)) fs' (record { entry = h.entry })
        (λ i x k. absurd (ground (arith, k)))
  Work-IsCurrent {t} (Work.enter_read w ino e offset size _ _) index alone h =
      kept w (some (Task.reading ino e offset size)) t h (λ i x k. absurd (ground (arith, k)))
  Work-IsCurrent {t} (Work.leave_read w ino e offset size _) index alone h =
      kept w none t h (λ i x k. absurd (ground (arith, k)))
  Work-IsCurrent {t} (Work.enter_change w ino c _ _ _) index alone h =
      start_change-IsCurrent w ino c t index h
  Work-IsCurrent {t} (Work.store w ino e c at) index alone h =
      stored-IsCurrent w ino e c t at h (on_data ino (do_change p crypto e c) t.mount) refl
  Work-IsCurrent {t} (Work.commit clock w ino e c result at) index alone h =
      let m' = (commit p crypto codec clock ino c result t.mount).1 in
      let edited = commit-IsEdited clock ino c result t.mount in
      record {
        entry =
            assign-IsCurrent w none t.workers m'.inner
              (λ v j x other k.
                elsewhere ino (t.mount).inner m'.inner j x edited
                  (λ same.
                    let mine = held-guard (t.workers w) ino e (ap held at) in
                    let other_guard = held-guard (t.workers v) j x k in
                    let own : w ≡ v =
                      alone.writers w v ino mine
                        (subst (λ i. has_write_guard i (t.workers v) ≡ true) same other_guard) in
                    ground (arith, own, other))
                  (h.entry v j x k))
              (λ i x k. absurd (ground (arith, k)));
      }

  Step-IsCurrent :
      {t u : Pqfs}
      → Step p codec crypto t u
      → IsIndex p crypto (t.mount).inner
      → IsExclusive t.workers
      → IsCurrent t
      → IsCurrent u
  Step-IsCurrent {t} (Step.request r valid unlocked) index alone h = record {
    entry = λ w ino e at.
        let before = ap held (ap (λ f. f w) (sym (handle-workers p codec crypto r t))) ∙ at in
        Evolves-IsCurrentEntry ino e (t.mount).inner ((handle p codec crypto r t).mount).inner
          (handle-Evolves p codec crypto r t) (h.entry w ino e before);
  }
  Step-IsCurrent (Step.work w) index alone h = Work-IsCurrent w index alone h

  -- With a sound cipher, and if no two names have the same hash: from a state whose index is well-formed, whose
  -- guards are exclusive, and in which each worker's entry is current, such as one with idle workers, any steps
  -- lead to a state in which it is: while a job holds an inode for writing, the entry in the index, if the inode
  -- still has one, has the content key, the size and the kind of the entry that the job works from.
  pub Reach-IsCurrent :
      {fs t : Pqfs}
      → IsSound p
      → ((a b : Bytes) → hash_filename p crypto a ≡ hash_filename p crypto b → a ≡ b)
      → IsIndex p crypto (fs.mount).inner
      → IsExclusive fs.workers
      → IsCurrent fs
      → Reach p codec crypto fs t
      → IsCurrent t
  Reach-IsCurrent sound apart index alone h here = h
  Reach-IsCurrent sound apart index alone h (next r s) =
      Step-IsCurrent s (Reach-IsIndex p sound codec crypto apart index r)
        (Reach-IsExclusive p codec crypto alone r) (Reach-IsCurrent sound apart index alone h r)
