-- ===== src/Wrapper/Jobs.antt =====
-- The jobs that `read`, `write` and `setattr` of src/fs/wrapper.rs spawn, step by step. Each step has the reply
-- that it sends, if it sends one.
use pqfs.Common.{
  ℕ, ◌%◌, ◌^◌, Bytes, length, List, Option, none, some, Result, ok, err, Error, enoent,
}
use pqfs.Common.SortedMap
use pqfs.Common.Exec.{Exec}
use pqfs.Backend.{FilePath}
use pqfs.Crypto.Primitives.{Primitives}
use pqfs.Crypto.Keys.{Crypto}
use pqfs.Blocks.Ops.{DataFile}
use pqfs.Index.Entry.{Entry}
use pqfs.Index.Names.{FileAttr}
use pqfs.Index.Persist.{IndexCodec, Mount}
use pqfs.Ops.Data.{ℤ, do_read, do_write_data, do_truncate}
use pqfs.Ops.Attrs.{commit_write, apply_setattr}
use pqfs.Wrapper.State.{Change, Job, Task, Pqfs, assign, on_data}

pub data Reply : Type 0 where
  bytes : Bytes → Reply
  written : ℕ → Reply
  attr : FileAttr → Reply
  failed : Error → Reply

-- A worker takes the first job of the queue.
unfoldable pub take_job : ℕ → Job → List Job → Pqfs → Pqfs
take_job w job rest fs = record fs {
  queue = rest;
  workers = assign w (some (Task.waiting job)) fs.workers;
}

-- The worker has a next step, or is idle again.
unfoldable pub proceed : ℕ → Option Task → Pqfs → Pqfs
proceed w task fs = record fs { workers = assign w task fs.workers }

-- The entry is read under the inode's lock.
unfoldable pub start_change : ℕ → ℕ → Change → Pqfs → Option Reply × Pqfs
unfolding proceed
start_change w ino c fs = elim (SortedMap.get ino ((fs.mount).inner).entries) [
  | none ↦ (some (Reply.failed enoent), proceed w none fs)
  | some e ↦ (none, proceed w (some (Task.changing ino e c)) fs)
]

module _ (p : Primitives) (crypto : Crypto) where
  -- The job of `read` once it holds the lock; it replies and ends.
  unfoldable pub run_read : ℕ → Entry → ℤ → ℕ → Pqfs → Reply
  run_read ino e offset size fs =
      elim (do_read p crypto e (((fs.mount).backend).files (FilePath.data_file ino)) offset size) [
        | ok b ↦ Reply.bytes b
        | err x ↦ Reply.failed x
      ]

  unfoldable pub do_change : Entry → Change → Exec DataFile (Bytes × ℕ)
  do_change e (Change.write offset input) = do_write_data p crypto e offset input
  do_change e (Change.truncate size a) = do_truncate p crypto e size

  -- What comes of the data file's change.
  abbrev pub stored :
      ℕ → ℕ → Entry → Change → Pqfs → Result (Bytes × ℕ) × Mount → Option Reply × Pqfs
  stored w ino e c fs (ok result, mount) =
      (none, proceed w (some (Task.changed ino e c result)) (record fs { mount = mount }))
  stored w ino e c fs (err x, mount) =
      (some (Reply.failed x), proceed w none (record fs { mount = mount }))

  unfoldable pub store_change : ℕ → ℕ → Entry → Change → Pqfs → Option Reply × Pqfs
  unfolding do_change proceed
  store_change w ino e c fs = stored w ino e c fs (on_data ino (do_change e c) fs.mount)

  module _ (codec : IndexCodec) where
    -- The end of a job that writes: `written` is the `u32` of the length.
    unfoldable pub commit : ℕ → ℕ → Change → Bytes × ℕ → Mount → Reply × Mount
    commit clock ino (Change.write offset input) result m = (
      Reply.written (length input % 2 ^ 32),
      record m { inner = (commit_write clock ino result.0 result.1 m.inner).1 },
    )
    commit clock ino (Change.truncate size a) result m =
        let (r, m') =
          apply_setattr p crypto codec clock ino (record a { truncated = some result }) m in
        (elim r [ ok x ↦ Reply.attr x | err x ↦ Reply.failed x ], m')

    unfoldable pub commit_change : ℕ → ℕ → ℕ → Change → Bytes × ℕ → Pqfs → Option Reply × Pqfs
    unfolding commit proceed
    commit_change clock w ino c result fs =
        let (reply, mount) = commit clock ino c result fs.mount in
        (some reply, proceed w none (record fs { mount = mount }))
