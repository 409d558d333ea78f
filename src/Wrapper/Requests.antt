-- ===== src/Wrapper/Requests.antt =====
-- The requests of src/fs/wrapper.rs: `mount`, and the `Filesystem` methods of `Pqfs`. A method that leaves its
-- reply to a job has the result `tt` or `none`. `fsync` and `flush` wait for the inode's lock, which
-- `Wrapper.Steps` has as a premise; whether the disk syncs a file is an argument of them.
use pqfs.Common.{
  ℕ, ◌+◌, Bytes, List, length, Bool, true, false, Option, none, some, Result, ok, err, enoent,
  eisdir, einval, eio, no_volume, if◌then◌else◌, ok_or, or_fail, bail_if, not, Bool-cases,
  Option-cases, inl, inr,
}
use pqfs.Common
use pqfs.Common.SortedMap
use pqfs.Common.Exec.{Exec, ◌>>=◌, ◌>>◌, pure, lift, gets}
use pqfs.Backend.{FilePath, header_file, exists}
use pqfs.Crypto.Primitives.{Primitives}
use pqfs.Crypto.Header.{default_kdf}
use pqfs.Crypto.Keys.{Crypto, HeaderCodec}
use pqfs.Crypto.Volume.Store
use pqfs.Crypto.Volume.Store.{init_with_params}
use pqfs.Commands.Credentials
use pqfs.Commands.Credentials.{World, CredentialArgs, on_backend, identity_file, require_password}
use pqfs.Index.Entry.{Entry, EntryKind}
use pqfs.Index.Names.{FileAttr}
use pqfs.Index.Persist.{IndexCodec, Mount, load, flush_index}
use pqfs.Ops.Data.{ℤ, as_eio}
use pqfs.Ops.Attrs
use pqfs.Ops.Attrs.{SetAttr, apply_setattr}
use pqfs.Ops.Tree
use pqfs.Ops.Tree.{Caller}
use pqfs.Wrapper.State.{Change, Job, Pqfs, new, spawn_job, on_mount}

-- `blocks::sync`, with what opening the data file and syncing it gave; it changes no byte.
unfoldable pub sync : Bool → ℕ → Exec Mount (Unit {0})
sync synced ino m = elim ((m.backend).files (FilePath.data_file ino)) [
  | none ↦ (ok tt, m)
  | some b ↦ (if synced then ok tt else err eio, m)
]

-- What follows a `sync` runs where it stands, or not at all.
pub sync-then :
    (P : Mount → Type 0) (synced : Bool) (ino : ℕ) (next : Exec Mount (Unit {0})) (m : Mount)
    → P m
    → P (next m).1
    → P ((sync synced ino >> next) m).1
unfolding sync
sync-then P synced ino next m h g =
    elim (Option-cases ((m.backend).files (FilePath.data_file ino))) [
      | inl missing ↦ rw (missing, sync) g
      | inr (b, there) ↦ elim (Bool-cases synced) [
        | inl good ↦ rw (there, good, sync) g
        | inr bad ↦ rw (there, bad, sync) h
      ]
    ]

-- The kind of an inode, as a request reads it before it spawns a job.
unfoldable pub kind_of : ℕ → Pqfs → Option EntryKind
kind_of ino fs = elim (SortedMap.get ino ((fs.mount).inner).entries) [
  | none ↦ none
  | some e ↦ some e.kind
]

unfoldable pub read_entry : ℕ → ℤ → ℕ → Entry → Pqfs → Result (Unit {0}) × Pqfs
unfolding spawn_job
read_entry ino offset size e fs = elim e.kind [
  | EntryKind.file ↦ (ok tt, spawn_job (Job.read ino e offset size) fs)
  | EntryKind.dir ↦ (err eisdir, fs)
  | EntryKind.symlink ↦ (err eisdir, fs)
]

unfoldable pub read : ℕ → ℤ → ℕ → Exec Pqfs (Unit {0})
unfolding read_entry
read ino offset size fs = elim (SortedMap.get ino ((fs.mount).inner).entries) [
  | none ↦ (err enoent, fs)
  | some e ↦ read_entry ino offset size e fs
]

unfoldable pub write : ℕ → ℤ → Bytes → Exec Pqfs (Unit {0})
unfolding kind_of spawn_job
write ino offset input fs = elim (kind_of ino fs) [
  | none ↦ (err enoent, fs)
  | some EntryKind.file ↦ (ok tt, spawn_job (Job.change ino (Change.write offset input)) fs)
  | some EntryKind.dir ↦ (err eisdir, fs)
  | some EntryKind.symlink ↦ (err einval, fs)
]

-- The times and the numbers that `setattr` hands to the job.
unfoldable pub resize : ℕ → ℕ → SetAttr → Pqfs → EntryKind → Result (Option FileAttr) × Pqfs
unfolding spawn_job
resize ino size a fs EntryKind.file =
    (ok none, spawn_job (Job.change ino (Change.truncate size a)) fs)
resize ino size a fs _ = (err eisdir, fs)

-- What `libc::statvfs` tells of the backend.
pub record BackingStoreStats : Type 0 where
  pub blocks : ℕ
  pub blocks_free : ℕ
  pub blocks_available : ℕ
  pub files_free : ℕ
  pub block_size : ℕ
  pub fragment_size : ℕ

-- The reply of `statfs`: the statistics, and the number of files.
unfoldable pub statfs : Option BackingStoreStats → Pqfs → Result (BackingStoreStats × ℕ)
statfs stats fs =
    Common.◌>>=◌ (ok_or stats eio)
      λ stats. ok (stats, length ((fs.mount).inner).entries + stats.files_free)

module _ (p : Primitives) (codec : IndexCodec) (crypto : Crypto) where
  -- `setattr` of an entry: without a size it is done at once.
  unfoldable pub setattr_entry :
      ℕ → ℕ → SetAttr → Pqfs → EntryKind → Option ℕ → Result (Option FileAttr) × Pqfs
  unfolding resize
  setattr_entry clock ino a fs kind none =
      on_mount
        (do
          attr ← apply_setattr p crypto codec clock ino (record a { truncated = none })
          pure (some attr))
        fs
  setattr_entry clock ino a fs kind (some size) = resize ino size a fs kind

  unfoldable pub setattr : ℕ → ℕ → Option ℕ → SetAttr → Exec Pqfs (Option FileAttr)
  unfolding kind_of setattr_entry
  setattr clock ino size a fs = elim (kind_of ino fs) [
    | none ↦ (err enoent, fs)
    | some kind ↦ setattr_entry clock ino a fs kind size
  ]

  unfoldable pub create : Caller → ℕ → Bytes → ℕ → Exec Pqfs FileAttr
  create caller parent name mode = on_mount (Tree.create p codec crypto caller parent name mode)

  unfoldable pub mkdir : Caller → ℕ → Bytes → ℕ → Exec Pqfs FileAttr
  mkdir caller parent name mode = on_mount (Tree.mkdir p codec crypto caller parent name mode)

  unfoldable pub symlink : Caller → ℕ → Bytes → Bytes → Exec Pqfs FileAttr
  symlink caller parent link_name target =
      on_mount (Tree.symlink p codec crypto caller parent link_name target)

  unfoldable pub unlink : ℕ → Bytes → Exec Pqfs (Unit {0})
  unlink parent name = on_mount (Tree.unlink p codec crypto parent name)

  unfoldable pub rmdir : ℕ → Bytes → Exec Pqfs (Unit {0})
  rmdir parent name = on_mount (Tree.rmdir p codec crypto parent name)

  unfoldable pub rename : ℕ → ℕ → Bytes → ℕ → Bytes → Exec Pqfs (Unit {0})
  rename clock parent name newparent newname =
      on_mount (Tree.rename p codec crypto clock parent name newparent newname)

  unfoldable pub fsync : Bool → ℕ → Exec Pqfs (Unit {0})
  unfolding sync
  fsync synced ino = on_mount (sync synced ino >> as_eio (flush_index p codec crypto))

  unfoldable pub fsyncdir : Exec Pqfs (Unit {0})
  fsyncdir = on_mount (as_eio (flush_index p codec crypto))

  unfoldable pub flush : Bool → ℕ → Exec Pqfs (Unit {0})
  unfolding sync
  flush synced ino = on_mount (sync synced ino >> as_eio (flush_index p codec crypto))

  -- `drop` up to the closing of the queue; the workers then drain it. A failure is logged.
  unfoldable pub close : Pqfs → Pqfs
  close fs = record fs { mount = (flush_index p codec crypto fs.mount).1; is_open = false }

  -- The methods that only read the index.
  abbrev pub lookup : ℕ → Bytes → Pqfs → Result FileAttr
  lookup parent name fs = Attrs.lookup p crypto parent name (fs.mount).inner

  abbrev pub getattr : ℕ → Pqfs → Result FileAttr
  getattr ino fs = Attrs.getattr ino (fs.mount).inner

  abbrev pub readdir : ℕ → ℕ → Pqfs → Result (List (ℕ × EntryKind × Bytes))
  readdir ino offset fs = Attrs.readdir p crypto ino offset (fs.mount).inner

  abbrev pub open_ino : ℕ → Pqfs → Result (Unit {0})
  open_ino ino fs = Attrs.open_ino ino (fs.mount).inner

  abbrev pub readlink : ℕ → Pqfs → Result Bytes
  readlink ino fs = Attrs.readlink p crypto ino (fs.mount).inner

-- `Pqfs::mount`, up to the session with the kernel.
module _ (p : Primitives) (header_codec : HeaderCodec) (codec : IndexCodec) where
  -- The keys: of the volume that is there, or of a new one.
  unfoldable pub open_or_init : Bool → CredentialArgs → Exec World Crypto
  open_or_init init credential = do
    header_exists ← gets (λ w. exists header_file w.backend)
    identity ← identity_file credential
    (λ w.
        if header_exists
        then (do
          key ← lift (Credentials.unlock credential identity)
          on_backend (Store.unlock p header_codec key))
            w
        else if init
        then (do
          word ← lift (require_password credential)
          on_backend (init_with_params p header_codec word default_kdf))
            w
        else (err no_volume, w))

  unfoldable pub mount : Caller → Option ℕ → Bool → CredentialArgs → Exec World (Crypto × Pqfs)
  unfolding new
  mount caller parallelism init credential = do
    crypto ← open_or_init init credential
    inner ← on_backend (load p codec caller.clock caller.uid caller.gid crypto)
    gets (λ w. (crypto, new inner parallelism w.backend))
