-- ===== src/Ops/Attrs.antt =====
-- The handlers that read an entry or change its attributes: `lookup`, `getattr`, `readdir`, `readlink`,
-- `apply_setattr`, `open` and `commit_write` of src/fs/ops.rs. The clock, in nanoseconds, is an argument.
use pqfs.Common.{
  ℕ, suc, zero, ◌+◌, ◌%◌, ◌^◌, Bytes, List, [], ◌∷◌, ◌++◌, drop, Bool, true, false, Option, none,
  some, Result, ok, err, ok_or, or_fail, if◌then◌else◌, enoent, enotdir, einval, eio,
}
use pqfs.Common
use pqfs.Common.SortedMap
use pqfs.Common.Exec.{Exec, ◌>>=◌, ◌>>◌, pure}
use pqfs.Crypto.Primitives.{Primitives}
use pqfs.Crypto.Keys.{Crypto}
use pqfs.Index.Entry.{Entry, EntryKind, touch_changed, touch_modified}
use pqfs.Index.State.{Inner, child_inodes, mark_dirty}
use pqfs.Index.Names.{FileAttr, attr_for, find_child, decrypt_filename}
use pqfs.Index.Persist.{IndexCodec, Mount, save_index}
use pqfs.Ops.Data.{ℤ, pos, negsuc, as_eio}

-- The entry of an inode, or ENOENT.
unfoldable pub entry_of : ℕ → Inner → Result Entry
entry_of ino s = ok_or (SortedMap.get ino s.entries) enoent

unfoldable pub getattr : ℕ → Inner → Result FileAttr
getattr ino s = Common.◌>>=◌ (entry_of ino s) λ e. ok (attr_for e)

unfoldable pub open_ino : ℕ → Inner → Result (Unit {0})
open_ino ino s = Common.◌>>=◌ (entry_of ino s) λ e. ok tt

-- `get_mut` with a change of the entry
unfoldable pub modify_entry : ℕ → (Entry → Entry) → Inner → Inner
modify_entry ino change s = elim (SortedMap.get ino s.entries) [
  | none ↦ s
  | some e ↦ record s { entries = SortedMap.insert ino (change e) s.entries }
]

-- `Option<TimeOrNow>` of `setattr`
pub data TimeOrNow : Type 0 where
  specific : ℤ → TimeOrNow
  now : TimeOrNow

-- `specific` has the nanoseconds since the epoch. A time before it is read as 0, one after it is cut to 64 bits.
unfoldable pub time_or_now_nanos : ℕ → TimeOrNow → ℕ
time_or_now_nanos clock (specific (pos nanos)) = nanos % 2 ^ 64
time_or_now_nanos clock (specific (negsuc nanos)) = 0
time_or_now_nanos clock now = clock

pub record SetAttr : Type 0 where
  pub mode : Option ℕ
  pub uid : Option ℕ
  pub gid : Option ℕ
  pub atime : Option TimeOrNow
  pub mtime : Option TimeOrNow
  pub truncated : Option (Bytes × ℕ)

-- `if let Some(v) = value { change }`
abbrev pub when_some {ℓ} : {A : Type ℓ} → Option A → (A → Entry → Entry) → Entry → Entry
when_some none change e = e
when_some (some a) change e = change a e

-- The changes of `apply_setattr` to the entry, in their order.
unfoldable pub with_attrs : ℕ → SetAttr → Entry → Entry
with_attrs clock a e =
    let e = when_some a.mode (λ mode e. record e { perm = mode % 65536 % 512 }) e in
    let e = when_some a.uid (λ uid e. record e { uid = uid }) e in
    let e = when_some a.gid (λ gid e. record e { gid = gid }) e in
    let e =
      when_some a.atime
        (λ t e. record e { times = record (e.times) { atime = time_or_now_nanos clock t } }) e in
    let e =
      when_some a.mtime
        (λ t e. record e { times = record (e.times) { mtime = time_or_now_nanos clock t } }) e in
    let e =
      when_some a.truncated
        (λ t e. record e { content_key = t.0; size = t.1; times = touch_modified clock e.times })
        e in
    record e { times = touch_changed clock e.times }

unfoldable pub put_attrs : ℕ → ℕ → SetAttr → Mount → Mount
unfolding modify_entry with_attrs
put_attrs clock ino a m = record m { inner = modify_entry ino (with_attrs clock a) m.inner }

-- Whether the entry was there.
unfoldable pub commit_write : ℕ → ℕ → Bytes → ℕ → Inner → Bool × Inner
unfolding modify_entry mark_dirty
commit_write clock ino content_key_enc size s = elim (SortedMap.get ino s.entries) [
  | none ↦ (false, s)
  | some e ↦ (
    true,
    mark_dirty (
        modify_entry ino
          (λ e. record e {
            content_key = content_key_enc;
            size = size;
            times = touch_modified clock e.times;
          })
          s),
  )
]

module _ (p : Primitives) (crypto : Crypto) where
  unfoldable pub lookup : ℕ → Bytes → Inner → Result FileAttr
  lookup parent name s =
      Common.◌>>=◌ (ok_or (find_child p crypto parent name s) enoent) λ e. ok (attr_for e)

  unfoldable pub readlink : ℕ → Inner → Result Bytes
  readlink ino s = Common.◌>>=◌ (entry_of ino s) λ e. elim e.kind [
    | EntryKind.symlink ↦ or_fail eio (decrypt_filename p crypto e.link_target)
    | _ ↦ err einval
  ]

  -- The names of the children, in order of their inodes.
  unfoldable pub named_rows : List Entry → Result (List (ℕ × EntryKind × Bytes))
  named_rows [] = ok []
  named_rows (e ∷ es) =
      Common.◌>>=◌ (or_fail eio (decrypt_filename p crypto e.name_encrypted))
        λ name. Common.◌>>=◌ (named_rows es) λ rest. ok ((e.ino, e.kind, name) ∷ rest)

  -- The rows from `offset` on; the buffer of the reply, which may hold fewer, is not modelled.
  unfoldable pub readdir : ℕ → ℕ → Inner → Result (List (ℕ × EntryKind × Bytes))
  readdir ino offset s = Common.◌>>=◌ (entry_of ino s) λ e. elim e.kind [
    | EntryKind.dir ↦ Common.◌>>=◌ (named_rows (child_inodes ino s)) λ rows. ok (
        drop offset
          ((ino, EntryKind.dir, 46 ∷ []) ∷ (e.parent, EntryKind.dir, 46 ∷ 46 ∷ []) ∷ rows))
    | _ ↦ err enotdir
  ]

  module _ (codec : IndexCodec) where
    unfoldable pub apply_setattr : ℕ → ℕ → SetAttr → Exec Mount FileAttr
    unfolding put_attrs
    apply_setattr clock ino a = do
      e ← λ m. (entry_of ino m.inner, m)
      λ m. (ok tt, put_attrs clock ino a m)
      as_eio (save_index p codec crypto)
      pure (attr_for (with_attrs clock a e))
