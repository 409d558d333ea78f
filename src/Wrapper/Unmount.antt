-- ===== src/Wrapper/Unmount.antt =====
-- `drop` of `Pqfs` in src/fs/wrapper.rs: the index is flushed first, and then the workers drain the queue.
use pqfs.Common.{
  ℕ, ◌≡◌, refl, sym, ap, ◌∙◌, Bytes, List, [], ◌∷◌, Bool, true, false, Option, none, some, Result,
  ok, err, arith, ◌==◌, if◌then◌else◌, Bool-cases, Option-cases, inl, inr,
}
use pqfs.Common.SortedMap
use pqfs.Backend.{index_file, update, same_path}
use pqfs.Crypto.Primitives.{Primitives}
use pqfs.Crypto.Keys.{Crypto}
use pqfs.Index.Entry.{Entry}
use pqfs.Index.Persist.{IndexCodec, Mount, flush_index}
use pqfs.Wrapper.State.{Change, Job, Task, Pqfs, assign, on_data}
use pqfs.Wrapper.Requests.{close}
use pqfs.Wrapper.Jobs.{
  take_job, proceed, start_change, do_change, stored, store_change, commit, commit_change,
}
use pqfs.Wrapper.Steps.{Work, Drains, done, also}

-- Whether a change, a job or a task sets a size through `setattr`.
pub is_truncate : Change → Bool
is_truncate (Change.write offset input) = false
is_truncate (Change.truncate size a) = true

pub job_truncates : Job → Bool
unfolding is_truncate
job_truncates (Job.read ino e offset size) = false
job_truncates (Job.change ino c) = is_truncate c

unfoldable pub task_truncates : Option Task → Bool
unfolding job_truncates is_truncate
task_truncates none = false
task_truncates (some (Task.waiting job)) = job_truncates job
task_truncates (some (Task.reading ino e offset size)) = false
task_truncates (some (Task.changing ino e c)) = is_truncate c
task_truncates (some (Task.changed ino e c result)) = is_truncate c

unfoldable pub queue_truncates : List Job → Bool
unfolding job_truncates
queue_truncates [] = false
queue_truncates (job ∷ jobs) =
    let rest = queue_truncates jobs in if job_truncates job then true else rest

-- Only reads and writes are left to do.
pub record IsReadWrite (fs : Pqfs) : Type 0 where
  pub queue : queue_truncates fs.queue ≡ false
  pub workers : (w : ℕ) → task_truncates (fs.workers w) ≡ false

-- The index file is as it was, and only reads and writes are left.
record IsUnsaved (fs t : Pqfs) : Type 0 where
  rest : IsReadWrite t
  file : ((t.mount).backend).files index_file ≡ ((fs.mount).backend).files index_file

assign-IsReadWrite :
    (w : ℕ) (task : Option Task) (fs : Pqfs) (m : Mount)
    → task_truncates task ≡ false
    → IsReadWrite fs
    → IsReadWrite (record fs { mount = m; workers = assign w task fs.workers })
unfolding assign
assign-IsReadWrite w task fs m quiet h = record {
  queue = h.queue;
  workers = λ v. elim (Bool-cases (w == v)) [
    | inl same ↦ rw (same, assign) quiet
    | inr other ↦ rw (other, assign) (h.workers v)
  ];
}

first_quiet :
    (job : Job) (rest : List Job)
    → queue_truncates (job ∷ rest) ≡ false
    → (job_truncates job ≡ false) × (queue_truncates rest ≡ false)
unfolding queue_truncates
first_quiet job rest h = elim (Bool-cases (job_truncates job)) [
  | inl truncates ↦ absurd (ground (arith, h, truncates))
  | inr quiet ↦ (quiet, ground (arith, h, quiet))
]

module _ (p : Primitives) (codec : IndexCodec) (crypto : Crypto) where
  proceed-IsUnsaved :
      (w : ℕ) (task : Option Task) (fs : Pqfs) (m : Mount)
      → task_truncates task ≡ false
      → IsReadWrite fs
      → (m.backend).files index_file ≡ ((fs.mount).backend).files index_file
      → IsUnsaved fs (proceed w task (record fs { mount = m }))
  unfolding proceed
  proceed-IsUnsaved w task fs m quiet h same = record {
    rest = assign-IsReadWrite w task fs m quiet h;
    file = same;
  }

  start_change-IsUnsaved :
      (w ino : ℕ) (c : Change) (fs : Pqfs)
      → is_truncate c ≡ false
      → IsReadWrite fs
      → IsUnsaved fs (start_change w ino c fs).1
  unfolding start_change task_truncates
  start_change-IsUnsaved w ino c fs quiet h =
      elim (Option-cases (SortedMap.get ino ((fs.mount).inner).entries)) [
        | inl missing ↦
            rw (missing, start_change) (proceed-IsUnsaved w none fs fs.mount refl h refl)
        | inr (e, there) ↦
            rw (there, start_change)
              (proceed-IsUnsaved w (some (Task.changing ino e c)) fs fs.mount quiet h refl)
      ]

  stored-IsUnsaved :
      (w ino : ℕ) (e : Entry) (c : Change) (fs : Pqfs) (r : Result (Bytes × ℕ) × Mount)
      → is_truncate c ≡ false
      → IsReadWrite fs
      → ((r.1).backend).files index_file ≡ ((fs.mount).backend).files index_file
      → IsUnsaved fs (stored p crypto w ino e c fs r).1
  unfolding task_truncates
  stored-IsUnsaved w ino e c fs (ok result, m) quiet h same =
      proceed-IsUnsaved w (some (Task.changed ino e c result)) fs m quiet h same
  stored-IsUnsaved w ino e c fs (err x, m) quiet h same = proceed-IsUnsaved w none fs m refl h same

  commit-file :
      (clock ino : ℕ) (c : Change) (result : Bytes × ℕ) (m : Mount)
      → is_truncate c ≡ false
      → ((commit p crypto codec clock ino c result m).1.backend).files index_file
        ≡ (m.backend).files index_file
  unfolding commit is_truncate
  commit-file clock ino (Change.write offset input) result m quiet = refl
  commit-file clock ino (Change.truncate size a) result m quiet = absurd (ground (arith, quiet))

  Work-IsUnsaved : {t u : Pqfs} → Work p codec crypto t u → IsReadWrite t → IsUnsaved t u
  unfolding take_job store_change commit_change task_truncates job_truncates update same_path
  Work-IsUnsaved {t} (Work.take w job rest _ _ q) h =
      let quiet = first_quiet job rest (ap queue_truncates (sym q) ∙ h.queue) in
      record {
        rest =
            assign-IsReadWrite w (some (Task.waiting job)) (record t { queue = rest }) t.mount
              quiet.0 (record { queue = quiet.1; workers = h.workers });
        file = refl;
      }
  Work-IsUnsaved {t} (Work.enter_read w ino e offset size _ _) h =
      proceed-IsUnsaved w (some (Task.reading ino e offset size)) t t.mount refl h refl
  Work-IsUnsaved {t} (Work.leave_read w ino e offset size _) h =
      proceed-IsUnsaved w none t t.mount refl h refl
  Work-IsUnsaved {t} (Work.enter_change w ino c at _ _) h =
      start_change-IsUnsaved w ino c t (ap task_truncates (sym at) ∙ h.workers w) h
  Work-IsUnsaved {t} (Work.store w ino e c at) h =
      stored-IsUnsaved w ino e c t (on_data ino (do_change p crypto e c) t.mount)
        (ap task_truncates (sym at) ∙ h.workers w) h refl
  Work-IsUnsaved {t} (Work.commit clock w ino e c result at) h =
      proceed-IsUnsaved w none t (commit p crypto codec clock ino c result t.mount).1 refl h
        (commit-file clock ino c result t.mount (ap task_truncates (sym at) ∙ h.workers w))

  Drains-IsUnsaved : {fs t : Pqfs} → IsReadWrite fs → Drains p codec crypto fs t → IsUnsaved fs t
  Drains-IsUnsaved h done = record { rest = h; file = refl }
  Drains-IsUnsaved h (also d w) =
      let before = Drains-IsUnsaved h d in
      let after = Work-IsUnsaved w before.rest in
      record { rest = after.rest; file = after.file ∙ before.file }

  -- Unmounting flushes the index before the workers drain the queue: if only reads and writes are left to do,
  -- then however the workers go on, the index file stays as the flush left it, so the sizes and content keys
  -- that the writes commit are not saved.
  pub Drains-close :
      (fs t : Pqfs)
      → IsReadWrite fs
      → Drains p codec crypto (close p codec crypto fs) t
      → ((t.mount).backend).files index_file
        ≡ ((flush_index p codec crypto fs.mount).1.backend).files index_file
  unfolding close
  Drains-close fs t h d =
      (Drains-IsUnsaved (record { queue = h.queue; workers = h.workers }) d).file
