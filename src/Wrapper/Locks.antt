-- ===== src/Wrapper/Locks.antt =====
-- The locks of the inodes: a worker that changes a file is alone with it.
use pqfs.Common.{
  ℕ, ◌≡◌, refl, sym, ap, ◌∙◌, subst, Bytes, true, false, Option, none, some, Result, ok, err,
  Bool-cases, Option-cases, inl, inr, ◌⊎◌, arith, ◌==◌,
}
use pqfs.Common.SortedMap
use pqfs.Crypto.Primitives.{Primitives}
use pqfs.Crypto.Keys.{Crypto}
use pqfs.Index.Entry.{Entry}
use pqfs.Index.Persist.{IndexCodec, Mount}
use pqfs.Wrapper.State.{
  Change, Job, Task, Pqfs, spawn_job, assign, on_data, has_read_guard, has_write_guard,
}
use pqfs.Wrapper.Requests
use pqfs.Wrapper.Requests.{read_entry, setattr_entry, resize, kind_of}
use pqfs.Wrapper.Jobs.{
  take_job, proceed, start_change, do_change, stored, store_change, commit_change,
}
use pqfs.Wrapper.Steps.{Request, handle, Work, Step, Reach, here, next}

-- A guard for writing excludes every other guard.
pub record IsExclusive (workers : ℕ → Option Task) : Type 0 where
  pub writers :
      (v w ino : ℕ)
      → has_write_guard ino (workers v) ≡ true
      → has_write_guard ino (workers w) ≡ true
      → v ≡ w
  pub readers :
      (v w ino : ℕ)
      → has_write_guard ino (workers v) ≡ true
      → has_read_guard ino (workers w) ≡ true
      → ⊥

pub assign_here :
    (w : ℕ) (task : Option Task) (f : ℕ → Option Task) (v : ℕ)
    → (w == v) ≡ true
    → assign w task f v ≡ task
unfolding assign
assign_here w task f v same = rw same refl

pub assign_other :
    (w : ℕ) (task : Option Task) (f : ℕ → Option Task) (v : ℕ)
    → (w == v) ≡ false
    → assign w task f v ≡ f v
unfolding assign
assign_other w task f v other = rw other refl

-- A worker's next task keeps the guards exclusive, if each guard of it is one that the worker had, or that was
-- free to gain.
module _ (w : ℕ) (task : Option Task) (f : ℕ → Option Task) (h : IsExclusive f)
    (gain_write : (ino : ℕ)
      → has_write_guard ino task ≡ true
      → (has_write_guard ino (f w) ≡ true)
        ⊎ ((v : ℕ) → (has_write_guard ino (f v) ≡ false) × (has_read_guard ino (f v) ≡ false)))
    (gain_read : (ino : ℕ)
      → has_read_guard ino task ≡ true
      → (has_read_guard ino (f w) ≡ true) ⊎ ((v : ℕ) → has_write_guard ino (f v) ≡ false)) where
  other_writes :
      (u ino : ℕ) → has_write_guard ino task ≡ true → has_write_guard ino (f u) ≡ true → w ≡ u
  other_writes u ino t g = elim (gain_write ino t) [
    | inl had ↦ h.writers w u ino had g
    | inr free ↦ absurd (ground (arith, (free u).0))
  ]

  other_reads : (u ino : ℕ) → has_write_guard ino task ≡ true → has_read_guard ino (f u) ≡ true → ⊥
  other_reads u ino t g = elim (gain_write ino t) [
    | inl had ↦ h.readers w u ino had g
    | inr free ↦ ground (arith, (free u).1)
  ]

  reads_other : (u ino : ℕ) → has_read_guard ino task ≡ true → has_write_guard ino (f u) ≡ true → ⊥
  reads_other u ino t g = elim (gain_read ino t) [
    | inl had ↦ h.readers u w ino g had
    | inr free ↦ ground (arith, free u)
  ]

  assign-IsExclusive :
      ((ino : ℕ) → has_write_guard ino task ≡ true → has_read_guard ino task ≡ true → ⊥)
      → IsExclusive (assign w task f)
  assign-IsExclusive alone = record {
    writers = λ u v ino a b. elim (Bool-cases (w == u)) [
      | inl own ↦ elim (Bool-cases (w == v)) [
        | inl own' ↦ ground arith
        | inr there ↦
            let a' : has_write_guard ino task ≡ true =
              ap (has_write_guard ino) (sym (assign_here w task f u own)) ∙ a in
            let b' : has_write_guard ino (f v) ≡ true =
              ap (has_write_guard ino) (sym (assign_other w task f v there)) ∙ b in
            let same = other_writes v ino a' b' in ground arith
      ]
      | inr there ↦
          let a' : has_write_guard ino (f u) ≡ true =
            ap (has_write_guard ino) (sym (assign_other w task f u there)) ∙ a in
          elim (Bool-cases (w == v)) [
            | inl own ↦
                let b' : has_write_guard ino task ≡ true =
                  ap (has_write_guard ino) (sym (assign_here w task f v own)) ∙ b in
                let same = other_writes u ino b' a' in ground arith
            | inr there' ↦
                let b' : has_write_guard ino (f v) ≡ true =
                  ap (has_write_guard ino) (sym (assign_other w task f v there')) ∙ b in
                h.writers u v ino a' b'
          ]
    ];
    readers = λ u v ino a b. elim (Bool-cases (w == u)) [
      | inl own ↦
          let a' : has_write_guard ino task ≡ true =
            ap (has_write_guard ino) (sym (assign_here w task f u own)) ∙ a in
          elim (Bool-cases (w == v)) [
            | inl own' ↦
                alone ino a' (ap (has_read_guard ino) (sym (assign_here w task f v own')) ∙ b)
            | inr there ↦
                other_reads v ino a'
                  (ap (has_read_guard ino) (sym (assign_other w task f v there)) ∙ b)
          ]
      | inr there ↦
          let a' : has_write_guard ino (f u) ≡ true =
            ap (has_write_guard ino) (sym (assign_other w task f u there)) ∙ a in
          elim (Bool-cases (w == v)) [
            | inl own ↦
                reads_other u ino (ap (has_read_guard ino) (sym (assign_here w task f v own)) ∙ b)
                  a'
            | inr there' ↦
                h.readers u v ino a'
                  (ap (has_read_guard ino) (sym (assign_other w task f v there')) ∙ b)
          ]
    ];
  }

-- A worker that ends, or waits, holds nothing.
idle : (w : ℕ) (f : ℕ → Option Task) → IsExclusive f → IsExclusive (assign w none f)
unfolding has_read_guard has_write_guard
idle w f h =
    assign-IsExclusive w none f h (λ ino t. absurd (ground arith)) (λ ino t. absurd (ground arith))
      (λ ino a b. ground arith)

spawn_job-workers : (job : Job) (fs : Pqfs) → (spawn_job job fs).workers ≡ fs.workers
unfolding spawn_job
spawn_job-workers job fs = elim (Bool-cases fs.is_open) [ inl h ↦ rw h refl | inr h ↦ rw h refl ]

start_change-IsExclusive :
    (w ino : ℕ) (c : Change) (fs : Pqfs)
    → IsExclusive fs.workers
    → ((v : ℕ) → has_write_guard ino (fs.workers v) ≡ false)
    → ((v : ℕ) → has_read_guard ino (fs.workers v) ≡ false)
    → IsExclusive (start_change w ino c fs).1.workers
unfolding start_change proceed has_read_guard has_write_guard
start_change-IsExclusive w ino c fs h unwritten unread =
    elim (Option-cases (SortedMap.get ino ((fs.mount).inner).entries)) [
      | inl missing ↦ rw (missing, start_change) (idle w fs.workers h)
      | inr (e, there) ↦
          rw (there, start_change)
            (assign-IsExclusive w (some (Task.changing ino e c)) fs.workers h
              (λ i g.
                let same : ino ≡ i = ground arith in
                inr (λ v.
                  subst
                    (λ k.
                      (has_write_guard k (fs.workers v) ≡ false)
                      × (has_read_guard k (fs.workers v) ≡ false))
                    same (unwritten v, unread v)))
              (λ i g. absurd (ground arith)) (λ i a b. ground arith))
    ]

module _ (p : Primitives) (codec : IndexCodec) (crypto : Crypto) where
  -- No request touches the workers.
  pub handle-workers : (r : Request) (fs : Pqfs) → (handle p codec crypto r fs).workers ≡ fs.workers
  unfolding handle Requests.create Requests.mkdir Requests.symlink Requests.unlink Requests.rmdir
      Requests.rename Requests.fsync Requests.flush Requests.fsyncdir Requests.read read_entry
      Requests.write Requests.setattr setattr_entry resize
  handle-workers (Request.create c parent name mode) fs = refl
  handle-workers (Request.mkdir c parent name mode) fs = refl
  handle-workers (Request.symlink c parent name target) fs = refl
  handle-workers (Request.unlink parent name) fs = refl
  handle-workers (Request.rmdir parent name) fs = refl
  handle-workers (Request.rename clock parent name newparent newname) fs = refl
  handle-workers (Request.read ino offset size) fs =
      ground (arith, λ (job : Job). spawn_job-workers job fs)
  handle-workers (Request.write ino offset input) fs =
      ground (arith, λ (job : Job). spawn_job-workers job fs)
  handle-workers (Request.setattr clock ino size a) fs =
      ground (arith, λ (job : Job). spawn_job-workers job fs)
  handle-workers (Request.fsync synced ino) fs = refl
  handle-workers (Request.flush synced ino) fs = refl
  handle-workers Request.fsyncdir fs = refl

  stored-IsExclusive :
      (w ino : ℕ) (e : Entry) (c : Change) (fs : Pqfs)
      → fs.workers w ≡ some (Task.changing ino e c)
      → IsExclusive fs.workers
      → (r : Result (Bytes × ℕ) × Mount) → IsExclusive (stored p crypto w ino e c fs r).1.workers
  unfolding proceed has_read_guard has_write_guard
  stored-IsExclusive w ino e c fs at h (ok result, m) =
      assign-IsExclusive w (some (Task.changed ino e c result)) fs.workers h
        (λ i g. inl (ap (has_write_guard i) at ∙ g)) (λ i g. absurd (ground arith))
        (λ i a b. ground arith)
  stored-IsExclusive w ino e c fs at h (err x, m) = idle w fs.workers h

  pub Work-IsExclusive :
      {t u : Pqfs} → Work p codec crypto t u → IsExclusive t.workers → IsExclusive u.workers
  unfolding take_job proceed store_change commit_change has_read_guard has_write_guard
  Work-IsExclusive {t} (Work.take w job rest _ _ _) h =
      assign-IsExclusive w (some (Task.waiting job)) t.workers h (λ ino g. absurd (ground arith))
        (λ ino g. absurd (ground arith)) (λ ino a b. ground arith)
  Work-IsExclusive {t} (Work.enter_read w ino e offset size _ unwritten) h =
      assign-IsExclusive w (some (Task.reading ino e offset size)) t.workers h
        (λ i g. absurd (ground arith))
        (λ i g. inr (λ v.
          let same : ino ≡ i = ground arith in
          ap (λ k. has_write_guard k (t.workers v)) (sym same) ∙ unwritten v))
        (λ i a b. ground arith)
  Work-IsExclusive {t} (Work.leave_read w ino e offset size _) h = idle w t.workers h
  Work-IsExclusive {t} (Work.enter_change w ino c _ unwritten unread) h =
      start_change-IsExclusive w ino c t h unwritten unread
  Work-IsExclusive {t} (Work.store w ino e c at) h =
      stored-IsExclusive w ino e c t at h (on_data ino (do_change p crypto e c) t.mount)
  Work-IsExclusive {t} (Work.commit clock w ino e c result _) h = idle w t.workers h

  Step-IsExclusive :
      {t u : Pqfs} → Step p codec crypto t u → IsExclusive t.workers → IsExclusive u.workers
  Step-IsExclusive {t} (Step.request r valid unlocked) h =
      subst IsExclusive (sym (handle-workers r t)) h
  Step-IsExclusive (Step.work w) h = Work-IsExclusive w h

  -- From a state in which guards are exclusive, such as one with idle workers, any steps lead to one in which
  -- they are: of two workers that hold guards of one inode, neither writes.
  pub Reach-IsExclusive :
      {fs t : Pqfs} → IsExclusive fs.workers → Reach p codec crypto fs t → IsExclusive t.workers
  Reach-IsExclusive h here = h
  Reach-IsExclusive h (next r s) = Step-IsExclusive s (Reach-IsExclusive h r)
