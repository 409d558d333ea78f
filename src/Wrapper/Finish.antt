-- ===== src/Wrapper/Finish.antt =====
-- No deadlock: while a job is left, some worker has a next step, so the workers get through the queue.
use pqfs.Common.{
  ℕ, zero, suc, ◌<◌, ◌≤◌, ◌≡◌, refl, ap, ◌∙◌, subst, List, [], ◌∷◌, Bool, true, false, Option, none,
  some, arith, ◌==◌, ltb, Bool-cases, inl, inr, ◌⊎◌,
}
use pqfs.Crypto.Primitives.{Primitives}
use pqfs.Crypto.Keys.{Crypto}
use pqfs.Index.Persist.{IndexCodec}
use pqfs.Wrapper.State.{Job, Task, Pqfs, has_read_guard, has_write_guard}
use pqfs.Wrapper.Jobs.{take_job, proceed, start_change, store_change, commit_change}
use pqfs.Wrapper.Steps.{Work, Drains, done, also}
use pqfs.Wrapper.Drain.{remaining, IsPool, Work-IsProgress}

-- A task that holds a guard, and one that waits for it.
is_active : Option Task → Bool
is_active (some (Task.reading ino e offset size)) = true
is_active (some (Task.changing ino e c)) = true
is_active (some (Task.changed ino e c result)) = true
is_active _ = false

is_waiting : Option Task → Bool
is_waiting (some (Task.waiting job)) = true
is_waiting _ = false

-- One of the first `n` workers passes the test, or none does.
search_workers :
    (test : Option Task → Bool) (n : ℕ) (f : ℕ → Option Task)
    → ((w : ℕ) × (w < n) × (test (f w) ≡ true)) ⊎ ((w : ℕ) → w < n → test (f w) ≡ false)
search_workers test zero f = inr (λ w h. absurd (omega (arith, h)))
search_workers test (suc n) f = elim (Bool-cases (test (f n))) [
  | inl passes ↦ inl (n, omega arith, passes)
  | inr fails ↦ elim (search_workers test n f) [
    | inl (w, small, passes) ↦ inl (w, omega (arith, small), passes)
    | inr none_of ↦ inr (λ w h. elim (Bool-cases (w == n)) [
      | inl same ↦ let w' : n ≡ w = ground (arith, same) in subst (λ k. test (f k) ≡ false) w' fails
      | inr other ↦ none_of w (ground (arith, other, h))
    ])
  ]
]

-- A task without a guard.
inactive_guards :
    (t : Option Task) (ino : ℕ)
    → is_active t ≡ false
    → (has_write_guard ino t ≡ false) × (has_read_guard ino t ≡ false)
unfolding is_active has_write_guard has_read_guard
inactive_guards none ino h = (refl, refl)
inactive_guards (some (Task.waiting job)) ino h = (refl, refl)
inactive_guards (some (Task.reading i e offset size)) ino h = absurd (ground (arith, h))
inactive_guards (some (Task.changing i e c)) ino h = absurd (ground (arith, h))
inactive_guards (some (Task.changed i e c result)) ino h = absurd (ground (arith, h))

idle_task : (t : Option Task) → is_active t ≡ false → is_waiting t ≡ false → t ≡ none
unfolding is_active is_waiting
idle_task none a b = refl
idle_task (some (Task.waiting job)) a b = absurd (ground (arith, b))
idle_task (some (Task.reading i e offset size)) a b = absurd (ground (arith, a))
idle_task (some (Task.changing i e c)) a b = absurd (ground (arith, a))
idle_task (some (Task.changed i e c result)) a b = absurd (ground (arith, a))

-- The queue is empty and the workers are idle.
abbrev pub IsDone : Pqfs → Type 0
IsDone fs = (fs.queue ≡ []) × ((w : ℕ) → fs.workers w ≡ none)

module _ (p : Primitives) (codec : IndexCodec) (crypto : Crypto) where
  abbrev HasStep : Pqfs → Type 0
  HasStep fs = (u : Pqfs) × Work p codec crypto fs u

  active_step :
      (fs : Pqfs) (w : ℕ) (t : Option Task) → fs.workers w ≡ t → is_active t ≡ true → HasStep fs
  unfolding is_active
  active_step fs w none at h = absurd (ground (arith, h))
  active_step fs w (some (Task.waiting job)) at h = absurd (ground (arith, h))
  active_step fs w (some (Task.reading ino e offset size)) at h =
      (proceed w none fs, Work.leave_read w ino e offset size at)
  active_step fs w (some (Task.changing ino e c)) at h =
      ((store_change p crypto w ino e c fs).1, Work.store w ino e c at)
  active_step fs w (some (Task.changed ino e c result)) at h =
      ((commit_change p crypto codec 0 w ino c result fs).1, Work.commit 0 w ino e c result at)

  waiting_step :
      (fs : Pqfs) (w : ℕ) (t : Option Task)
      → ((v : ℕ) → is_active (fs.workers v) ≡ false)
      → fs.workers w ≡ t
      → is_waiting t ≡ true
      → HasStep fs
  unfolding is_waiting
  waiting_step fs w none free at h = absurd (ground (arith, h))
  waiting_step fs w (some (Task.waiting (Job.read ino e offset size))) free at h = (
    proceed w (some (Task.reading ino e offset size)) fs,
    Work.enter_read w ino e offset size at (λ v. (inactive_guards (fs.workers v) ino (free v)).0),
  )
  waiting_step fs w (some (Task.waiting (Job.change ino c))) free at h = (
    (start_change w ino c fs).1,
    Work.enter_change w ino c at (λ v. (inactive_guards (fs.workers v) ino (free v)).0)
        (λ v. (inactive_guards (fs.workers v) ino (free v)).1),
  )
  waiting_step fs w (some (Task.reading ino e offset size)) free at h = absurd (ground (arith, h))
  waiting_step fs w (some (Task.changing ino e c)) free at h = absurd (ground (arith, h))
  waiting_step fs w (some (Task.changed ino e c result)) free at h = absurd (ground (arith, h))

  queue_step :
      (fs : Pqfs) (jobs : List Job)
      → fs.queue ≡ jobs
      → 0 < fs.thread_count
      → fs.workers 0 ≡ none
      → (jobs ≡ []) ⊎ HasStep fs
  queue_step fs [] q threads idle = inl refl
  queue_step fs (job ∷ rest) q threads idle =
      inr (take_job 0 job rest fs, Work.take 0 job rest threads idle q)

  below_pool :
      (test : Option Task → Bool) (fs : Pqfs)
      → IsPool fs
      → test none ≡ false
      → ((w : ℕ) → w < fs.thread_count → test (fs.workers w) ≡ false)
      → (w : ℕ) → test (fs.workers w) ≡ false
  below_pool test fs pool quiet below w = elim (Bool-cases (ltb w fs.thread_count)) [
    | inl small ↦ below w (ground (arith, small))
    | inr large ↦ ap test (pool w (ground (arith, large))) ∙ quiet
  ]

  progress : (fs : Pqfs) → IsPool fs → 0 < fs.thread_count → IsDone fs ⊎ HasStep fs
  unfolding is_active is_waiting
  progress fs pool threads = elim (search_workers is_active fs.thread_count fs.workers) [
    | inl (w, small, active) ↦ inr (active_step fs w (fs.workers w) refl active)
    | inr inactive ↦
        let free = below_pool is_active fs pool refl inactive in
        elim (search_workers is_waiting fs.thread_count fs.workers) [
          | inl (w, small, waits) ↦ inr (waiting_step fs w (fs.workers w) free refl waits)
          | inr unoccupied ↦
              let calm = below_pool is_waiting fs pool refl unoccupied in
              let idle : (w : ℕ) → fs.workers w ≡ none =
                λ w. idle_task (fs.workers w) (free w) (calm w) in
              elim (queue_step fs fs.queue refl threads (idle 0)) [
                | inl empty ↦ inl (empty, idle)
                | inr step ↦ inr step
              ]
        ]
  ]

  first :
      {fs t u : Pqfs}
      → Work p codec crypto fs t
      → Drains p codec crypto t u
      → Drains p codec crypto fs u
  first w done = also done w
  first w (also d v) = also (first w d) v

  finish :
      (n : ℕ) (fs : Pqfs)
      → remaining fs ≤ n
      → IsPool fs
      → 0 < fs.thread_count
      → (t : Pqfs) × Drains p codec crypto fs t × IsDone t
  finish zero fs small pool threads = elim (progress fs pool threads) [
    | inl over ↦ (fs, done, over)
    | inr (u, w) ↦ absurd (omega (arith, small, (Work-IsProgress p codec crypto w pool).fewer))
  ]
  finish (suc n) fs small pool threads = elim (progress fs pool threads) [
    | inl over ↦ (fs, done, over)
    | inr (u, w) ↦
        let next = Work-IsProgress p codec crypto w pool in
        let (t, d, over) =
          finish n u (omega (arith, small, next.fewer)) next.pool
            (omega (arith, next.threads, threads)) in
        (t, first w d, over)
  ]

  -- With workers in the pool, of which there is one at least: the workers can go on until the queue is empty
  -- and all of them are idle.
  pub Drains-IsDone :
      (fs : Pqfs)
      → IsPool fs
      → 0 < fs.thread_count
      → (t : Pqfs) × Drains p codec crypto fs t × IsDone t
  Drains-IsDone fs pool threads = finish (remaining fs) fs (omega arith) pool threads
