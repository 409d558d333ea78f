-- ===== src/Wrapper/State.antt =====
-- The state of `Pqfs` in src/fs/wrapper.rs. The lock of the index is held for one operation, so each such
-- operation is one step on the mount; a job holds the lock of its inode from the step that takes it to its end.
use pqfs.Common.{
  ℕ, Bytes, List, [], ◌∷◌, ◌++◌, Bool, true, false, Option, none, some, if◌then◌else◌, ◌==◌, max,
}
use pqfs.Common.Exec.{Exec}
use pqfs.Blocks.Ops.{DataFile}
use pqfs.Backend.{Backend, FilePath, update}
use pqfs.Index.Entry.{Entry}
use pqfs.Index.State.{Inner}
use pqfs.Index.Persist.{Mount}
use pqfs.Ops.Data.{ℤ}
use pqfs.Ops.Attrs.{SetAttr}

-- What a job does to a data file, and then to the entry.
pub data Change : Type 0 where
  write : ℤ → Bytes → Change
  truncate : ℕ → SetAttr → Change

-- A job of the queue. A read carries the entry that its request found.
pub data Job : Type 0 where
  read : ℕ → Entry → ℤ → ℕ → Job
  change : ℕ → Change → Job

-- How far a worker is with its job: it waits for the inode's lock; it holds it for reading; it holds it for
-- writing, with the entry that it found, then also with the content key and the size that
-- are to be committed.
pub data Task : Type 0 where
  waiting : Job → Task
  reading : ℕ → Entry → ℤ → ℕ → Task
  changing : ℕ → Entry → Change → Task
  changed : ℕ → Entry → Change → Bytes × ℕ → Task

pub record Pqfs : Type 0 where
  pub mount : Mount
  -- whether `job_tx` is there
  pub is_open : Bool
  pub queue : List Job
  pub thread_count : ℕ
  -- the job of each worker
  pub workers : ℕ → Option Task

-- `Pqfs::new`, with what `available_parallelism` gives, if it does
unfoldable pub new : Inner → Option ℕ → Backend → Pqfs
new inner parallelism backend = record {
  mount = record { inner = inner; backend = backend };
  is_open = true;
  queue = [];
  thread_count = max (elim parallelism [ none ↦ 2 | some n ↦ n ]) 2;
  workers = λ w. none;
}

unfoldable pub spawn_job : Job → Pqfs → Pqfs
spawn_job job fs = if fs.is_open then record fs { queue = fs.queue ++ job ∷ [] } else fs

unfoldable pub assign : ℕ → Option Task → (ℕ → Option Task) → ℕ → Option Task
assign w task workers v = if w == v then task else workers v

-- An operation under the lock of the index.
abbrev pub on_mount : {A : Type 0} → Exec Mount A → Exec Pqfs A
on_mount m fs = let (r, mount) = m fs.mount in (r, record fs { mount = mount })

-- An operation on the data file of an inode, in place. Its writes do not count against `power`.
abbrev pub on_data : {A : Type 0} → ℕ → Exec DataFile A → Exec Mount A
on_data ino m s =
    let path = FilePath.data_file ino in
    let (r, file) = m (record { contents = (s.backend).files path; draws = (s.backend).draws }) in
    (
      r,
      record s {
        backend = record (s.backend) {
          files = update (s.backend).files path file.contents;
          draws = file.draws;
        };
      },
    )

-- The guard of an inode's lock that a task holds: none, one for reading, or the one for writing.
unfoldable pub has_read_guard : ℕ → Option Task → Bool
has_read_guard ino (some (Task.reading i e offset size)) = i == ino
has_read_guard ino _ = false

unfoldable pub has_write_guard : ℕ → Option Task → Bool
has_write_guard ino (some (Task.changing i e c)) = i == ino
has_write_guard ino (some (Task.changed i e c result)) = i == ino
has_write_guard ino _ = false
