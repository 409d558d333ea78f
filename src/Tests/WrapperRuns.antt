-- ===== src/Tests/WrapperRuns.antt =====
-- The wrapper at a concrete input: a write to a file is requested, and a worker does it.
use pqfs.Common.{◌+◌, ◌≤◌, ℕ, ◌≡◌, ◌<◌, refl, ap, [], ◌∷◌, none, some, true, false, arith}
use pqfs.Common.SortedMap
use pqfs.Backend.{index_file}
use pqfs.Index.Entry.{EntryKind}
use pqfs.Index.State.{link, unlink_previous, insert_entry}
use pqfs.Index.Names.{hash_filename}
use pqfs.Index.Persist.{flush_index}
use pqfs.Index.WellFormed.{IsIndex}
use pqfs.Ops.Data.{ℤ}
use pqfs.Wrapper.State.{
  Change, Job, Task, Pqfs, new, assign, spawn_job, has_read_guard, has_write_guard,
}
use pqfs.Wrapper.Requests
use pqfs.Wrapper.Requests.{kind_of, close}
use pqfs.Wrapper.Jobs.{take_job, proceed, start_change}
use pqfs.Wrapper.Steps.{
  Request, new_name, locks, handle, Work, Step, Reach, Drains, here, next, done, also,
}
use pqfs.Index.Tree.{IsTree}
use pqfs.Wrapper.Rooted.{AllParented, Reach-IsTree}
use pqfs.Tests.TreeRuns.{tree-IsTree}
use pqfs.Wrapper.Invariant.{Reach-IsIndex}
use pqfs.Wrapper.Locks.{IsExclusive}
use pqfs.Wrapper.Isolation.{
  works_on, worker_of, Others, none_yet, another, Undisturbed, Others-Undisturbed,
}
use pqfs.Wrapper.Current.{IsCurrent, held, Reach-IsCurrent}
use pqfs.Wrapper.Drain.{remaining, IsPool, steps, Drains-remaining}
use pqfs.Wrapper.Finish.{IsDone, Drains-IsDone}
use pqfs.Wrapper.Unmount.{IsReadWrite, queue_truncates, task_truncates, Drains-close}
use pqfs.Tests.Toy.{toy, toy-IsSound}
use pqfs.Tests.OpsRuns.{crypto, index_codec}
use pqfs.Tests.NameRuns.{tree, tree-IsIndex}

abbrev input : Change
input = Change.write (ℤ.pos 0) (7 ∷ 8 ∷ [])

abbrev mounted : Pqfs
mounted = new (tree EntryKind.file).inner (some 4) (tree EntryKind.file).backend

abbrev requested : Pqfs
requested = handle toy index_codec crypto (Request.write 2 (ℤ.pos 0) (7 ∷ 8 ∷ [])) mounted

abbrev taken : Pqfs
taken = take_job 1 (Job.change 2 input) [] requested

abbrev entered : Pqfs
entered = (start_change 1 2 input taken).1

queued : requested.queue ≡ Job.change 2 input ∷ []
unfolding handle Requests.write kind_of spawn_job new insert_entry unlink_previous link
    SortedMap.get SortedMap.insert
queued = refl

idle : (v : ℕ) → requested.workers v ≡ none
unfolding handle Requests.write kind_of spawn_job new insert_entry unlink_previous link
    SortedMap.get SortedMap.insert
idle v = refl

two : 1 < requested.thread_count
unfolding handle Requests.write kind_of spawn_job new insert_entry unlink_previous link
    SortedMap.get SortedMap.insert
two = omega arith

waits : taken.workers 1 ≡ some (Task.waiting (Job.change 2 input))
unfolding take_job assign
waits = refl

unwritten : (v : ℕ) → has_write_guard 2 (taken.workers v) ≡ false
unfolding take_job assign has_write_guard
unwritten v = ground (arith, idle v)

unread : (v : ℕ) → has_read_guard 2 (taken.workers v) ≡ false
unfolding take_job assign has_read_guard
unread v = ground (arith, idle v)

run : Reach toy index_codec crypto mounted entered
unfolding new_name locks
run =
    next
      (next
        (next here (
          Step.request (Request.write 2 (ℤ.pos 0) (7 ∷ 8 ∷ [])) (λ n h. absurd (ground arith))
            (λ i h. absurd (ground arith))))
        (Step.work (Work.take 1 (Job.change 2 input) [] two (idle 1) queued)))
      (Step.work (Work.enter_change 1 2 input waits unwritten unread))

Reach-IsIndex_example : IsIndex toy crypto (entered.mount).inner
unfolding hash_filename new
Reach-IsIndex_example =
    Reach-IsIndex toy toy-IsSound index_codec crypto (λ a b h. h) (tree-IsIndex EntryKind.file) run

-- No request of the run asks for a new entry.
asks : AllParented toy index_codec crypto run
unfolding run
asks = (tt, tt)

Reach-IsTree_example : IsTree ((entered.mount).inner).entries
unfolding hash_filename new
Reach-IsTree_example =
    Reach-IsTree toy index_codec crypto toy-IsSound (λ a b h. h) (tree-IsIndex EntryKind.file)
      (tree-IsTree EntryKind.file) run asks

mounted-IsExclusive : IsExclusive mounted.workers
unfolding new has_read_guard has_write_guard
mounted-IsExclusive = record {
  writers = λ v w ino a b. absurd (ground arith);
  readers = λ v w ino a b. ground arith;
}

-- While worker 1 is at work on the file, another write is asked for, and worker 0 takes it.
abbrev crowded : Pqfs
crowded = handle toy index_codec crypto (Request.write 2 (ℤ.pos 0) (9 ∷ [])) entered

abbrev second : Change
second = Change.write (ℤ.pos 0) (9 ∷ [])

longer : Reach toy index_codec crypto mounted crowded
unfolding new_name locks
longer = next run (
    Step.request (Request.write 2 (ℤ.pos 0) (9 ∷ [])) (λ n h. absurd (ground arith))
      (λ i h. absurd (ground arith)))

others : Others toy index_codec crypto 1 crowded (take_job 0 (Job.change 2 second) [] crowded)
unfolding handle Requests.write kind_of spawn_job new insert_entry unlink_previous link
    SortedMap.get SortedMap.insert start_change proceed take_job assign worker_of
others =
    another none_yet (Work.take 0 (Job.change 2 second) [] (omega arith) refl refl)
      (λ h. ground arith)

works : works_on 2 (crowded.workers 1) ≡ true
unfolding handle Requests.write kind_of spawn_job new insert_entry unlink_previous link
    SortedMap.get SortedMap.insert start_change proceed take_job assign works_on
works = refl

Others-Undisturbed_example :
    Undisturbed toy index_codec crypto 1 2 crowded (take_job 0 (Job.change 2 second) [] crowded)
Others-Undisturbed_example =
    Others-Undisturbed toy index_codec crypto 1 2 mounted-IsExclusive longer works others

mounted-IsCurrent : IsCurrent mounted
unfolding new held
mounted-IsCurrent = record { entry = λ w ino e at. absurd (ground (arith, at)) }

Reach-IsCurrent_example : IsCurrent entered
unfolding hash_filename new
Reach-IsCurrent_example =
    Reach-IsCurrent toy index_codec crypto toy-IsSound (λ a b h. h) (tree-IsIndex EntryKind.file)
      mounted-IsExclusive mounted-IsCurrent run

requested-IsReadWrite : IsReadWrite requested
unfolding queue_truncates task_truncates
requested-IsReadWrite = record {
  queue = ap queue_truncates queued;
  workers = λ w. ap task_truncates (idle w);
}

abbrev drained : Pqfs
drained =
    (start_change 1 2 input
      (take_job 1 (Job.change 2 input) [] (close toy index_codec crypto requested))).1

drain : Drains toy index_codec crypto (close toy index_codec crypto requested) drained
unfolding close take_job
drain =
    also (also done (Work.take 1 (Job.change 2 input) [] two (idle 1) queued))
      (Work.enter_change 1 2 input waits unwritten unread)

Drains-close_example :
    ((drained.mount).backend).files index_file
    ≡ ((flush_index toy index_codec crypto requested.mount).1.backend).files index_file
Drains-close_example =
    Drains-close toy index_codec crypto requested drained requested-IsReadWrite drain

requested-IsPool : IsPool requested
requested-IsPool w h = idle w

Drains-remaining_example :
    steps toy index_codec crypto drain + remaining drained
    ≤ remaining (close toy index_codec crypto requested)
unfolding close
Drains-remaining_example = Drains-remaining toy index_codec crypto drain requested-IsPool

Drains-IsDone_example : (t : Pqfs) × Drains toy index_codec crypto requested t × IsDone t
Drains-IsDone_example =
    Drains-IsDone toy index_codec crypto requested requested-IsPool (omega (arith, two))
