-- ===== src/Wrapper/Drain.antt =====
-- The workers drain the queue: every run of theirs ends, and none is stuck before all jobs are done.
use pqfs.Common.{
  ℕ, zero, suc, ◌+◌, ◌*◌, ◌<◌, ◌≤◌, ◌≡◌, refl, ap, Bytes, length, false, Option, none, some, Result,
  ok, err, arith, ◌==◌, ltb, Bool-cases, Option-cases, inl, inr,
}
use pqfs.Common.SortedMap
use pqfs.Crypto.Primitives.{Primitives}
use pqfs.Crypto.Keys.{Crypto}
use pqfs.Index.Entry.{Entry}
use pqfs.Index.Persist.{IndexCodec, Mount}
use pqfs.Wrapper.State.{Change, Job, Task, Pqfs, assign, on_data}
use pqfs.Wrapper.Jobs.{
  take_job, proceed, start_change, do_change, stored, store_change, commit, commit_change,
}
use pqfs.Wrapper.Steps.{Work, Drains, done, also}

-- The steps that a worker still needs for its task, at most.
unfoldable pub weight : Option Task → ℕ
weight none = 0
weight (some (Task.waiting job)) = 3
weight (some (Task.reading ino e offset size)) = 1
weight (some (Task.changing ino e c)) = 2
weight (some (Task.changed ino e c result)) = 1

-- The same for the first `n` workers.
unfoldable pub total : ℕ → (ℕ → Option Task) → ℕ
unfolding weight
total zero workers = 0
total (suc n) workers = weight (workers n) + total n workers

-- The steps that are left, at most.
unfoldable pub remaining : Pqfs → ℕ
unfolding total
remaining fs = 4 * length fs.queue + total fs.thread_count fs.workers

-- There are no other workers than those of the pool.
abbrev pub IsPool : Pqfs → Type 0
IsPool fs = (w : ℕ) → fs.thread_count ≤ w → fs.workers w ≡ none

total_other :
    (n w : ℕ) (task : Option Task) (f : ℕ → Option Task)
    → n ≤ w
    → total n (assign w task f) ≡ total n f
unfolding total assign
total_other zero w task f h = refl
total_other (suc n) w task f h =
    let other : (w == n) ≡ false = ground (arith, h) in
    let rest = total_other n w task f (omega (arith, h)) in rw (other, assign) (omega (arith, rest))

total-assign :
    (n w : ℕ) (task : Option Task) (f : ℕ → Option Task)
    → w < n
    → total n (assign w task f) + weight (f w) ≡ total n f + weight task
unfolding total assign
total-assign zero w task f h = absurd (omega (arith, h))
total-assign (suc n) w task f h = elim (Bool-cases (w == n)) [
  | inl same ↦
      let w' : w ≡ n = ground (arith, same) in
      let rest = total_other n w task f (omega (arith, w')) in
      let old : weight (f w) ≡ weight (f n) = ap (λ k. weight (f k)) w' in
      rw (same, assign) (omega (arith, rest, old))
  | inr other ↦
      let w' : w < n = ground (arith, other, h) in
      let rest = total-assign n w task f w' in rw (other, assign) (omega (arith, rest))
]

-- A step uses up what is left, and the pool stays.
pub record IsProgress (fs t : Pqfs) : Type 0 where
  pub fewer : remaining t < remaining fs
  pub pool : IsPool t
  pub threads : t.thread_count ≡ fs.thread_count

pub in_pool :
    (fs : Pqfs) (w : ℕ) (task : Task) → IsPool fs → fs.workers w ≡ some task → w < fs.thread_count
in_pool fs w task pool at = elim (Bool-cases (ltb w fs.thread_count)) [
  | inl small ↦ ground (arith, small)
  | inr large ↦
      let idle : fs.workers w ≡ none = pool w (ground (arith, large)) in
      absurd (ground (arith, at, idle))
]

assign-IsPool :
    (w : ℕ) (task : Option Task) (fs : Pqfs)
    → w < fs.thread_count
    → IsPool fs
    → (v : ℕ) → fs.thread_count ≤ v
    → assign w task fs.workers v ≡ none
unfolding assign
assign-IsPool w task fs small pool v h =
    let other : (w == v) ≡ false = ground (arith, small, h) in rw other (pool v h)

proceed-IsProgress :
    (w : ℕ) (task : Option Task) (before : Task) (fs : Pqfs) (m : Mount)
    → IsPool fs
    → fs.workers w ≡ some before
    → weight task < weight (some before)
    → IsProgress fs (proceed w task (record fs { mount = m }))
unfolding proceed remaining
proceed-IsProgress w task before fs m pool at less =
    let small = in_pool fs w before pool at in
    let old : weight (fs.workers w) ≡ weight (some before) = ap weight at in
    record {
      fewer = omega (arith, total-assign fs.thread_count w task fs.workers small, old, less);
      pool = assign-IsPool w task fs small pool;
      threads = refl;
    }

start_change-IsProgress :
    (w ino : ℕ) (c : Change) (fs : Pqfs)
    → IsPool fs
    → fs.workers w ≡ some (Task.waiting (Job.change ino c))
    → IsProgress fs (start_change w ino c fs).1
unfolding start_change weight
start_change-IsProgress w ino c fs pool at =
    elim (Option-cases (SortedMap.get ino ((fs.mount).inner).entries)) [
      | inl missing ↦
          rw (missing, start_change)
            (proceed-IsProgress w none (Task.waiting (Job.change ino c)) fs fs.mount pool at
              (omega arith))
      | inr (e, there) ↦
          rw (there, start_change)
            (proceed-IsProgress w (some (Task.changing ino e c)) (Task.waiting (Job.change ino c))
              fs fs.mount pool at (omega arith))
    ]

module _ (p : Primitives) (codec : IndexCodec) (crypto : Crypto) where
  stored-IsProgress :
      (w ino : ℕ) (e : Entry) (c : Change) (fs : Pqfs) (r : Result (Bytes × ℕ) × Mount)
      → IsPool fs
      → fs.workers w ≡ some (Task.changing ino e c)
      → IsProgress fs (stored p crypto w ino e c fs r).1
  unfolding weight
  stored-IsProgress w ino e c fs (ok result, m) pool at =
      proceed-IsProgress w (some (Task.changed ino e c result)) (Task.changing ino e c) fs m pool at
        (omega arith)
  stored-IsProgress w ino e c fs (err x, m) pool at =
      proceed-IsProgress w none (Task.changing ino e c) fs m pool at (omega arith)

  pub Work-IsProgress : {t u : Pqfs} → Work p codec crypto t u → IsPool t → IsProgress t u
  unfolding take_job store_change commit_change weight remaining
  Work-IsProgress {t} (Work.take w job rest small idle q) pool =
      let old : weight (t.workers w) ≡ 0 = ap weight idle in
      let len : length t.queue ≡ suc (length rest) = ap length q in
      record {
        fewer = omega (
          arith,
          total-assign t.thread_count w (some (Task.waiting job)) t.workers small,
          old,
          len,
        );
        pool = assign-IsPool w (some (Task.waiting job)) t small pool;
        threads = refl;
      }
  Work-IsProgress {t} (Work.enter_read w ino e offset size at _) pool =
      proceed-IsProgress w (some (Task.reading ino e offset size))
        (Task.waiting (Job.read ino e offset size)) t t.mount pool at (omega arith)
  Work-IsProgress {t} (Work.leave_read w ino e offset size at) pool =
      proceed-IsProgress w none (Task.reading ino e offset size) t t.mount pool at (omega arith)
  Work-IsProgress {t} (Work.enter_change w ino c at _ _) pool =
      start_change-IsProgress w ino c t pool at
  Work-IsProgress {t} (Work.store w ino e c at) pool =
      stored-IsProgress w ino e c t (on_data ino (do_change p crypto e c) t.mount) pool at
  Work-IsProgress {t} (Work.commit clock w ino e c result at) pool =
      proceed-IsProgress w none (Task.changed ino e c result) t
        (commit p crypto codec clock ino c result t.mount).1 pool at (omega arith)

  -- The number of steps of a run.
  pub steps : {fs t : Pqfs} → Drains p codec crypto fs t → ℕ
  steps done = 0
  steps (also d w) = suc (steps d)

  drained-IsPool : {fs t : Pqfs} → Drains p codec crypto fs t → IsPool fs → IsPool t
  drained-IsPool done pool = pool
  drained-IsPool (also d w) pool = (Work-IsProgress w (drained-IsPool d pool)).pool

  -- With workers only in the pool, every run of the workers ends: its steps, and those that are left after it,
  -- are at most four for each job of the queue and what each worker still needs for its task.
  pub Drains-remaining :
      {fs t : Pqfs} (d : Drains p codec crypto fs t)
      → IsPool fs
      → steps d + remaining t ≤ remaining fs
  unfolding steps
  Drains-remaining done pool = omega arith
  Drains-remaining (also d w) pool =
      omega (arith, Drains-remaining d pool, (Work-IsProgress w (drained-IsPool d pool)).fewer)
