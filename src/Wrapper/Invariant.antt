-- ===== src/Wrapper/Invariant.antt =====
-- Whatever requests come, and however the workers interleave with them, the index stays well-formed.
use pqfs.Common.{
  ℕ, ◌≡◌, refl, sym, subst, Bytes, Bool, true, false, Option, none, some, Result, ok, err,
  Bool-cases, Option-cases, inl, inr, if◌then◌else◌, arith,
}
use pqfs.Common.After.{After-ok, After-bind, After-state}
use pqfs.Crypto.Primitives.{Primitives, IsSound}
use pqfs.Crypto.Keys.{Crypto}
use pqfs.Index.Entry.{Entry, EntryKind}
use pqfs.Index.State.{Inner}
use pqfs.Index.Names.{hash_filename, find_child, is_utf8}
use pqfs.Index.Persist.{IndexCodec, Mount, save_index, flush_index}
use pqfs.Index.WellFormed.{IsIndex, IsApart}
use pqfs.Ops.Data.{ℤ}
use pqfs.Ops.Tree
use pqfs.Ops.Attrs.{SetAttr, apply_setattr}
use pqfs.Ops.Attributes.{commit_write-IsIndex, apply_setattr-IsIndex}
use pqfs.Ops.Creation.{create-IsAdded, mkdir-IsAdded, symlink-IsAdded}
use pqfs.Ops.Unlinking.{unlink-IsDropped, rmdir-IsDropped}
use pqfs.Ops.Renaming.{rename-IsRenamed}
use pqfs.Ops.Removal.{save_index-inner}
use pqfs.Ops.Steps.{IsFlagged-IsIndex}
use pqfs.Wrapper.State.{Change, Job, Pqfs, spawn_job, on_data}
use pqfs.Wrapper.Requests
use pqfs.Wrapper.Requests.{sync-then, read_entry, setattr_entry, resize, kind_of}
use pqfs.Wrapper.Jobs.{
  take_job, proceed, start_change, do_change, stored, store_change, commit, commit_change,
}
use pqfs.Wrapper.Steps.{Request, new_name, handle, Work, Step, Reach, here, next}

-- What leaves the mount as it is.
spawn_job-mount : (job : Job) (fs : Pqfs) → (spawn_job job fs).mount ≡ fs.mount
unfolding spawn_job
spawn_job-mount job fs = elim (Bool-cases fs.is_open) [ inl h ↦ rw h refl | inr h ↦ rw h refl ]

pub read-mount :
    (ino : ℕ) (offset : ℤ) (size : ℕ) (fs : Pqfs)
    → (Requests.read ino offset size fs).1.mount ≡ fs.mount
unfolding Requests.read read_entry
read-mount ino offset size fs = ground (arith, λ (job : Job). spawn_job-mount job fs)

pub write-mount :
    (ino : ℕ) (offset : ℤ) (input : Bytes) (fs : Pqfs)
    → (Requests.write ino offset input fs).1.mount ≡ fs.mount
unfolding Requests.write
write-mount ino offset input fs = ground (arith, λ (job : Job). spawn_job-mount job fs)

pub resize-mount :
    (ino size : ℕ) (a : SetAttr) (fs : Pqfs) (kind : EntryKind)
    → (resize ino size a fs kind).1.mount ≡ fs.mount
unfolding resize
resize-mount ino size a fs EntryKind.file =
    spawn_job-mount (Job.change ino (Change.truncate size a)) fs
resize-mount ino size a fs EntryKind.dir = refl
resize-mount ino size a fs EntryKind.symlink = refl

pub start_change-mount :
    (w ino : ℕ) (c : Change) (fs : Pqfs) → (start_change w ino c fs).1.mount ≡ fs.mount
unfolding start_change
start_change-mount w ino c fs = ground arith

module _ (p : Primitives) (sound : IsSound p) (codec : IndexCodec) (crypto : Crypto)
    (apart : (a b : Bytes) → hash_filename p crypto a ≡ hash_filename p crypto b → a ≡ b) where
  abbrev IsGood : Mount → Type 0
  IsGood m = IsIndex p crypto m.inner

  names_apart : (s : Inner) (name : Bytes) → IsApart p crypto s name
  names_apart s name i e other g d h = apart other name h

  flush_index-IsIndex : (m : Mount) → IsGood m → IsGood (flush_index p codec crypto m).1
  unfolding flush_index
  flush_index-IsIndex m h = by_flag (m.inner).dirty
    where
      by_flag : (b : Bool) → IsGood (if b then save_index p codec crypto m else (ok tt, m)).1
      by_flag true =
          IsFlagged-IsIndex p codec crypto m.inner (save_index p codec crypto m).1 h
            (save_index-inner p codec crypto m)
      by_flag false = h

  rename-IsIndex :
      (clock parent : ℕ) (name : Bytes) (newparent : ℕ) (newname : Bytes) (m : Mount)
      → IsGood m
      → is_utf8 newname ≡ true
      → IsGood (Tree.rename p codec crypto clock parent name newparent newname m).1
  rename-IsIndex clock parent name newparent newname m h valid =
      elim (Option-cases (find_child p crypto parent name m.inner)) [
        | inl missing ↦ unfold Tree.rename in rw missing h
        | inr (source, found) ↦
            After-state IsGood (Tree.rename p codec crypto clock parent name newparent newname m)
              (λ _ m' r. r.index) (λ m' i. i)
              (rename-IsRenamed p codec crypto m h parent name (names_apart m.inner name) source
                found newparent newname (names_apart m.inner newname) sound clock valid)
      ]

  setattr-IsIndex :
      (clock ino : ℕ) (a : SetAttr) (m : Mount)
      → IsGood m
      → IsGood (apply_setattr p crypto codec clock ino a m).1
  setattr-IsIndex clock ino a m h =
      After-state IsGood (apply_setattr p crypto codec clock ino a m) (λ _ m' r. r.0) (λ m' i. i)
        (apply_setattr-IsIndex p crypto codec clock ino a m h)

  setattr_entry-IsIndex :
      (clock ino : ℕ) (a : SetAttr) (fs : Pqfs) (kind : EntryKind) (size : Option ℕ)
      → IsGood fs.mount
      → IsGood (setattr_entry p codec crypto clock ino a fs kind size).1.mount
  unfolding setattr_entry
  setattr_entry-IsIndex clock ino a fs kind none h =
      After-state IsGood _ (λ _ m' i. i) (λ m' i. i)
        (After-bind
          (apply_setattr p crypto codec clock ino (record a { truncated = none }) fs.mount)
          (λ attr m. (ok (some attr), m))
          (apply_setattr-IsIndex p crypto codec clock ino (record a { truncated = none }) fs.mount
            h)
          (λ attr m' i. After-ok (some attr) m' i.0))
  setattr_entry-IsIndex clock ino a fs kind (some size) h =
      subst IsGood (sym (resize-mount ino size a fs kind)) h

  request_setattr-IsIndex :
      (clock ino : ℕ) (size : Option ℕ) (a : SetAttr) (fs : Pqfs)
      → IsGood fs.mount
      → IsIndex p crypto ((Requests.setattr p codec crypto clock ino size a fs).1.mount).inner
  unfolding Requests.setattr
  request_setattr-IsIndex clock ino size a fs h = elim (Option-cases (kind_of ino fs)) [
    | inl missing ↦ rw (missing, Requests.setattr) h
    | inr (kind, there) ↦
        rw (there, Requests.setattr) (setattr_entry-IsIndex clock ino a fs kind size h)
  ]

  handle-IsIndex :
      (r : Request) (fs : Pqfs)
      → IsGood fs.mount
      → ((name : Bytes) → new_name r ≡ some name → is_utf8 name ≡ true)
      → IsGood (handle p codec crypto r fs).mount
  unfolding handle Requests.create Requests.mkdir Requests.symlink Requests.unlink Requests.rmdir
      Requests.rename Requests.fsync Requests.flush Requests.fsyncdir new_name
  handle-IsIndex (Request.create c parent name mode) fs h valid =
      After-state IsGood (Tree.create p codec crypto c parent name mode fs.mount)
        (λ _ m' a. a.index) (λ m' i. i)
        (create-IsAdded p sound codec crypto c parent name fs.mount h
          (names_apart (fs.mount).inner name) (valid name refl) mode)
  handle-IsIndex (Request.mkdir c parent name mode) fs h valid =
      After-state IsGood (Tree.mkdir p codec crypto c parent name mode fs.mount) (λ _ m' a. a.index)
        (λ m' i. i)
        (mkdir-IsAdded p sound codec crypto c parent name fs.mount h
          (names_apart (fs.mount).inner name) (valid name refl) mode)
  handle-IsIndex (Request.symlink c parent name target) fs h valid =
      After-state IsGood (Tree.symlink p codec crypto c parent name target fs.mount)
        (λ _ m' a. a.index) (λ m' i. i)
        (symlink-IsAdded p sound codec crypto c parent name fs.mount h
          (names_apart (fs.mount).inner name) (valid name refl) target)
  handle-IsIndex (Request.unlink parent name) fs h valid =
      After-state IsGood (Tree.unlink p codec crypto parent name fs.mount) (λ _ m' a. a.index)
        (λ m' i. i)
        (unlink-IsDropped p codec crypto parent name fs.mount h (names_apart (fs.mount).inner name))
  handle-IsIndex (Request.rmdir parent name) fs h valid =
      After-state IsGood (Tree.rmdir p codec crypto parent name fs.mount) (λ _ m' a. a.index)
        (λ m' i. i)
        (rmdir-IsDropped p codec crypto parent name fs.mount h (names_apart (fs.mount).inner name))
  handle-IsIndex (Request.rename clock parent name newparent newname) fs h valid =
      rename-IsIndex clock parent name newparent newname fs.mount h (valid newname refl)
  handle-IsIndex (Request.read ino offset size) fs h valid =
      subst IsGood (sym (read-mount ino offset size fs)) h
  handle-IsIndex (Request.write ino offset input) fs h valid =
      subst IsGood (sym (write-mount ino offset input fs)) h
  handle-IsIndex (Request.setattr clock ino size a) fs h valid =
      request_setattr-IsIndex clock ino size a fs h
  handle-IsIndex (Request.fsync synced ino) fs h valid =
      sync-then IsGood synced ino _ fs.mount h (flush_index-IsIndex fs.mount h)
  handle-IsIndex (Request.flush synced ino) fs h valid =
      sync-then IsGood synced ino _ fs.mount h (flush_index-IsIndex fs.mount h)
  handle-IsIndex Request.fsyncdir fs h valid = flush_index-IsIndex fs.mount h

  commit-IsIndex :
      (clock ino : ℕ) (c : Change) (result : Bytes × ℕ) (m : Mount)
      → IsGood m
      → IsGood (commit p crypto codec clock ino c result m).1
  unfolding commit
  commit-IsIndex clock ino (Change.write offset input) result m h =
      commit_write-IsIndex p crypto clock m.inner ino result.0 result.1 h
  commit-IsIndex clock ino (Change.truncate size a) result m h =
      setattr-IsIndex clock ino (record a { truncated = some result }) m h

  stored-IsIndex :
      (w ino : ℕ) (e : Entry) (c : Change) (fs : Pqfs) (r : Result (Bytes × ℕ) × Mount)
      → IsGood r.1
      → IsGood (stored p crypto w ino e c fs r).1.mount
  unfolding proceed
  stored-IsIndex w ino e c fs (ok result, m) h = h
  stored-IsIndex w ino e c fs (err x, m) h = h

  Work-IsIndex : {t u : Pqfs} → Work p codec crypto t u → IsGood t.mount → IsGood u.mount
  unfolding take_job proceed store_change commit_change
  Work-IsIndex (Work.take w job rest _ _ _) h = h
  Work-IsIndex (Work.enter_read w ino e offset size _ _) h = h
  Work-IsIndex (Work.leave_read w ino e offset size _) h = h
  Work-IsIndex {t} (Work.enter_change w ino c _ _ _) h =
      subst IsGood (sym (start_change-mount w ino c t)) h
  Work-IsIndex {t} (Work.store w ino e c _) h =
      stored-IsIndex w ino e c t (on_data ino (do_change p crypto e c) t.mount) h
  Work-IsIndex {t} (Work.commit clock w ino e c result _) h =
      commit-IsIndex clock ino c result t.mount h

  Step-IsIndex : {t u : Pqfs} → Step p codec crypto t u → IsGood t.mount → IsGood u.mount
  Step-IsIndex {t} (Step.request r valid unlocked) h = handle-IsIndex r t h valid
  Step-IsIndex (Step.work w) h = Work-IsIndex w h

  -- With a sound cipher, and if no two names have the same hash: from a state whose index is well-formed, any
  -- requests with names in UTF-8, interleaved in any way with the steps of the workers, lead to a state whose
  -- index is well-formed.
  pub Reach-IsIndex :
      {fs t : Pqfs}
      → IsIndex p crypto (fs.mount).inner
      → Reach p codec crypto fs t
      → IsIndex p crypto (t.mount).inner
  Reach-IsIndex h here = h
  Reach-IsIndex h (next r s) = Step-IsIndex s (Reach-IsIndex h r)
