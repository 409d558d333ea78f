-- ===== src/Index/Entry.antt =====
-- src/fs/entry.rs. The clock is an argument: the nanoseconds that `now_nanos` reads.
use pqfs.Common.{ℕ, Bytes}

pub data EntryKind : Type 0 where
  file dir symlink : EntryKind

pub record Timestamps : Type 0 where
  pub atime : ℕ
  pub mtime : ℕ
  pub ctime : ℕ
  pub crtime : ℕ

-- `Timestamps::now`
unfoldable pub at_time : ℕ → Timestamps
at_time now = record { atime = now; mtime = now; ctime = now; crtime = now }

unfoldable pub touch_changed : ℕ → Timestamps → Timestamps
touch_changed now t = record t { ctime = now }

unfoldable pub touch_modified : ℕ → Timestamps → Timestamps
touch_modified now t = record t { mtime = now; ctime = now }

pub record Entry : Type 0 where
  pub ino : ℕ
  pub parent : ℕ
  pub name_hash : Bytes
  pub name_encrypted : Bytes
  pub content_key : Bytes
  pub kind : EntryKind
  pub size : ℕ
  pub perm : ℕ
  pub uid : ℕ
  pub gid : ℕ
  pub times : Timestamps
  pub link_target : Bytes
