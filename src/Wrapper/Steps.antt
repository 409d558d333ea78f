-- ===== src/Wrapper/Steps.antt =====
-- How requests and workers interleave: one step is one request, handled by the thread of the session, or one
-- step of a worker. `std::sync` is taken at its word: a lock is gained when nobody holds a guard against it.
use pqfs.Common.{ℕ, ◌<◌, ◌≡◌, Bytes, List, ◌∷◌, Bool, true, false, Option, none, some}
use pqfs.Crypto.Primitives.{Primitives}
use pqfs.Crypto.Keys.{Crypto}
use pqfs.Index.Entry.{Entry}
use pqfs.Index.Names.{is_utf8}
use pqfs.Index.Persist.{IndexCodec}
use pqfs.Ops.Data.{ℤ}
use pqfs.Ops.Attrs.{SetAttr}
use pqfs.Ops.Tree.{Caller}
use pqfs.Wrapper.State.{Change, Job, Task, Pqfs, has_read_guard, has_write_guard}
use pqfs.Wrapper.Requests
use pqfs.Wrapper.Jobs.{take_job, proceed, start_change, store_change, commit_change}

-- The requests that change a state. The first number of `rename` and `setattr` is the clock.
pub data Request : Type 0 where
  create mkdir : Caller → ℕ → Bytes → ℕ → Request
  symlink : Caller → ℕ → Bytes → Bytes → Request
  unlink rmdir : ℕ → Bytes → Request
  rename : ℕ → ℕ → Bytes → ℕ → Bytes → Request
  read : ℕ → ℤ → ℕ → Request
  write : ℕ → ℤ → Bytes → Request
  setattr : ℕ → ℕ → Option ℕ → SetAttr → Request
  fsync flush : Bool → ℕ → Request
  fsyncdir : Request

-- The new name of a request, which is past `to_string_lossy`.
unfoldable pub new_name : Request → Option Bytes
new_name (create c parent name mode) = some name
new_name (mkdir c parent name mode) = some name
new_name (symlink c parent name target) = some name
new_name (rename clock parent name newparent newname) = some newname
new_name _ = none

-- The inode whose lock a request takes for reading.
unfoldable pub locks : Request → Option ℕ
locks (fsync synced ino) = some ino
locks (flush synced ino) = some ino
locks _ = none

-- No worker writes under the lock of the inode, and none reads.
abbrev pub IsUnwritten : ℕ → Pqfs → Type 0
IsUnwritten ino fs = (v : ℕ) → has_write_guard ino (fs.workers v) ≡ false

abbrev pub IsUnread : ℕ → Pqfs → Type 0
IsUnread ino fs = (v : ℕ) → has_read_guard ino (fs.workers v) ≡ false

module _ (p : Primitives) (codec : IndexCodec) (crypto : Crypto) where
  unfoldable pub handle : Request → Pqfs → Pqfs
  handle (create c parent name mode) fs = (Requests.create p codec crypto c parent name mode fs).1
  handle (mkdir c parent name mode) fs = (Requests.mkdir p codec crypto c parent name mode fs).1
  handle (symlink c parent name target) fs =
      (Requests.symlink p codec crypto c parent name target fs).1
  handle (unlink parent name) fs = (Requests.unlink p codec crypto parent name fs).1
  handle (rmdir parent name) fs = (Requests.rmdir p codec crypto parent name fs).1
  handle (rename clock parent name newparent newname) fs =
      (Requests.rename p codec crypto clock parent name newparent newname fs).1
  handle (read ino offset size) fs = (Requests.read ino offset size fs).1
  handle (write ino offset input) fs = (Requests.write ino offset input fs).1
  handle (setattr clock ino size a) fs = (Requests.setattr p codec crypto clock ino size a fs).1
  handle (fsync synced ino) fs = (Requests.fsync p codec crypto synced ino fs).1
  handle (flush synced ino) fs = (Requests.flush p codec crypto synced ino fs).1
  handle fsyncdir fs = (Requests.fsyncdir p codec crypto fs).1

  -- One step of a worker.
  pub data Work (fs : Pqfs) : Pqfs → Type 0 where
    take :
        (w : ℕ) (job : Job) (rest : List Job)
        → w < fs.thread_count
        → fs.workers w ≡ none
        → fs.queue ≡ job ∷ rest
        → Work fs (take_job w job rest fs)
    enter_read :
        (w ino : ℕ) (e : Entry) (offset : ℤ) (size : ℕ)
        → fs.workers w ≡ some (Task.waiting (Job.read ino e offset size))
        → IsUnwritten ino fs
        → Work fs (proceed w (some (Task.reading ino e offset size)) fs)
    leave_read :
        (w ino : ℕ) (e : Entry) (offset : ℤ) (size : ℕ)
        → fs.workers w ≡ some (Task.reading ino e offset size)
        → Work fs (proceed w none fs)
    enter_change :
        (w ino : ℕ) (c : Change)
        → fs.workers w ≡ some (Task.waiting (Job.change ino c))
        → IsUnwritten ino fs
        → IsUnread ino fs
        → Work fs (start_change w ino c fs).1
    store :
        (w ino : ℕ) (e : Entry) (c : Change)
        → fs.workers w ≡ some (Task.changing ino e c)
        → Work fs (store_change p crypto w ino e c fs).1
    commit :
        (clock w ino : ℕ) (e : Entry) (c : Change) (result : Bytes × ℕ)
        → fs.workers w ≡ some (Task.changed ino e c result)
        → Work fs (commit_change p crypto codec clock w ino c result fs).1

  pub data Step (fs : Pqfs) : Pqfs → Type 0 where
    request :
        (r : Request)
        → ((name : Bytes) → new_name r ≡ some name → is_utf8 name ≡ true)
        → ((ino : ℕ) → locks r ≡ some ino → IsUnwritten ino fs)
        → Step fs (handle r fs)
    work : {fs' : Pqfs} → Work fs fs' → Step fs fs'

  -- Any number of steps, and any number of steps of workers.
  pub data Reach (fs : Pqfs) : Pqfs → Type 0 where
    here : Reach fs fs
    next : {t u : Pqfs} → Reach fs t → Step t u → Reach fs u

  pub data Drains (fs : Pqfs) : Pqfs → Type 0 where
    done : Drains fs fs
    also : {t u : Pqfs} → Drains fs t → Work t u → Drains fs u
