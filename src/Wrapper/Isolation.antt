-- ===== src/Wrapper/Isolation.antt =====
-- What the locks of the inodes are for: while a job is at work on a file, no other worker touches its data.
use pqfs.Common.{
  ℕ, ◌≡◌, ◌≢◌, refl, ap, ◌∙◌, Bytes, Bool, true, false, Option, none, some, Result, ok, err,
  Bool-cases, Option-cases, inl, inr, ◌⊎◌, arith, ◌==◌, zero, suc,
}
use pqfs.Common.SortedMap
use pqfs.Common.After.{After, After-ok, After-bind, After-state}
use pqfs.Backend.{
  Backend, FilePath, create_file, write_all, rename, with_extension, update, same_path,
}
use pqfs.Crypto.Primitives.{Primitives}
use pqfs.Crypto.Keys.{Crypto}
use pqfs.Crypto.Volume.Crash.{restart}
use pqfs.Crypto.Volume.Store.{with_draws}
use pqfs.Crypto.Aead.{encrypt}
use pqfs.Blocks.Ops.{DataFile}
use pqfs.Index.Entry.{Entry}
use pqfs.Index.Names.{attr_for}
use pqfs.Index.Persist.{IndexCodec, Mount, on_disk, replace_index, save_index}
use pqfs.Ops.Attrs.{SetAttr, apply_setattr, entry_of, put_attrs, with_attrs}
use pqfs.Ops.Steps.{state-After, as_eio-After}
use pqfs.Wrapper.State.{Change, Task, Pqfs, on_data, has_read_guard, has_write_guard}
use pqfs.Wrapper.Jobs.{
  take_job, proceed, start_change, do_change, stored, store_change, commit, commit_change,
}
use pqfs.Wrapper.Steps.{Work, Reach}
use pqfs.Wrapper.Invariant.{start_change-mount}
use pqfs.Wrapper.Locks.{IsExclusive, assign_other, Work-IsExclusive, Reach-IsExclusive}

-- The task is at work on the inode: it reads the data, or is to write them, or is to commit what it wrote.
unfoldable pub works_on : ℕ → Option Task → Bool
works_on ino (some (Task.reading i e offset size)) = i == ino
works_on ino (some (Task.changing i e c)) = i == ino
works_on ino (some (Task.changed i e c result)) = i == ino
works_on ino _ = false

works_on-guard :
    (ino : ℕ) (t : Option Task)
    → works_on ino t ≡ true
    → (has_write_guard ino t ≡ true) ⊎ (has_read_guard ino t ≡ true)
unfolding works_on has_read_guard has_write_guard
works_on-guard ino none h = absurd (ground (arith, h))
works_on-guard ino (some (Task.waiting job)) h = absurd (ground (arith, h))
works_on-guard ino (some (Task.reading i e offset size)) h = inr h
works_on-guard ino (some (Task.changing i e c)) h = inl h
works_on-guard ino (some (Task.changed i e c result)) h = inl h

-- Two workers at one inode, of which one is to write, are the same.
alone :
    (f : ℕ → Option Task) (v w ino : ℕ)
    → IsExclusive f
    → works_on ino (f v) ≡ true
    → has_write_guard ino (f w) ≡ true
    → w ≡ v
alone f v w ino h at writes = elim (works_on-guard ino (f v) at) [
  | inl both ↦ h.writers w v ino writes both
  | inr reads ↦ absurd (h.readers w v ino writes reads)
]

-- The data of an inode in the backend.
abbrev pub data_of : ℕ → Mount → Option Bytes
data_of ino m = (m.backend).files (FilePath.data_file ino)

start_change-workers :
    (w ino : ℕ) (c : Change) (fs : Pqfs) (v : ℕ)
    → (w == v) ≡ false
    → (start_change w ino c fs).1.workers v ≡ fs.workers v
unfolding start_change proceed
start_change-workers w ino c fs v other =
    elim (Option-cases (SortedMap.get ino ((fs.mount).inner).entries)) [
      | inl missing ↦ rw (missing, start_change) (assign_other w none fs.workers v other)
      | inr (e, there) ↦
          rw (there, start_change)
            (assign_other w (some (Task.changing ino e c)) fs.workers v other)
    ]

on_data-elsewhere :
    (ino i : ℕ) (r : Option Bytes) (m : Mount)
    → (i == ino) ≡ false
    → update (m.backend).files (FilePath.data_file i) r (FilePath.data_file ino) ≡ data_of ino m
unfolding update same_path
on_data-elsewhere ino i r m other = rw other refl

module _ (p : Primitives) (codec : IndexCodec) (crypto : Crypto) where
  replace_index-data :
      (c : Bytes) (b : Backend) (ino k : ℕ)
      → ((replace_index p codec c (restart b k)).1).files (FilePath.data_file ino)
        ≡ b.files (FilePath.data_file ino)
  unfolding replace_index create_file write_all rename with_extension
  replace_index-data c b ino zero = refl
  replace_index-data c b ino (suc zero) = refl
  replace_index-data c b ino (suc (suc zero)) = refl
  replace_index-data c b ino (suc (suc (suc k))) = refl

  save_index-data :
      (ino : ℕ) (m : Mount)
      → After
          (λ _ t. data_of ino t ≡ data_of ino m)
          (λ t. data_of ino t ≡ data_of ino m)
          (save_index p codec crypto m)
  unfolding save_index
  save_index-data ino m =
      let sealed = with_draws (encrypt p crypto.cipher (codec.serialize (m.inner).entries)) in
      After-bind (on_disk sealed m) _
        (state-After (λ t. data_of ino t ≡ data_of ino m) (on_disk sealed m) refl)
        (λ c t h.
          After-bind (on_disk (replace_index p codec c) t) _
            (state-After (λ u. data_of ino u ≡ data_of ino m) (on_disk (replace_index p codec c) t)
              (replace_index-data c t.backend ino (t.backend).power ∙ h))
            (λ _ u k. After-ok tt (record u { inner = record (u.inner) { dirty = false } }) k))

  apply_setattr-data :
      (clock i : ℕ) (a : SetAttr) (ino : ℕ) (m : Mount)
      → data_of ino (apply_setattr p crypto codec clock i a m).1 ≡ data_of ino m
  unfolding apply_setattr entry_of put_attrs
  apply_setattr-data clock i a ino m = elim (Option-cases (SortedMap.get i (m.inner).entries)) [
    | inl missing ↦ rw missing refl
    | inr (e, there) ↦ rw there (
        After-state (λ t. data_of ino t ≡ data_of ino m) _ (λ _ t h. h) (λ t h. h)
          (After-bind _ _
            (as_eio-After (save_index p codec crypto) (put_attrs clock i a m)
              (save_index-data ino (put_attrs clock i a m)))
            (λ _ t h. After-ok (attr_for (with_attrs clock a e)) t h)))
  ]

  commit-data :
      (clock i : ℕ) (c : Change) (result : Bytes × ℕ) (ino : ℕ) (m : Mount)
      → data_of ino (commit p crypto codec clock i c result m).1 ≡ data_of ino m
  unfolding commit
  commit-data clock i (Change.write offset input) result ino m = refl
  commit-data clock i (Change.truncate size a) result ino m =
      apply_setattr-data clock i (record a { truncated = some result }) ino m

  stored-kept :
      (w i : ℕ) (e : Entry) (c : Change) (fs : Pqfs) (r : Result (Bytes × ℕ) × Mount) (v : ℕ)
      → (w == v) ≡ false
      → ((stored p crypto w i e c fs r).1.workers v ≡ fs.workers v)
        × ((stored p crypto w i e c fs r).1.mount ≡ r.1)
  unfolding proceed
  stored-kept w i e c fs (ok result, m) v other =
      (assign_other w (some (Task.changed i e c result)) fs.workers v other, refl)
  stored-kept w i e c fs (err x, m) v other = (assign_other w none fs.workers v other, refl)

  -- The worker that makes a step.
  unfoldable pub worker_of : {t u : Pqfs} → Work p codec crypto t u → ℕ
  worker_of (Work.take w job rest _ _ _) = w
  worker_of (Work.enter_read w ino e offset size _ _) = w
  worker_of (Work.leave_read w ino e offset size _) = w
  worker_of (Work.enter_change w ino c _ _ _) = w
  worker_of (Work.store w ino e c _) = w
  worker_of (Work.commit clock w ino e c result _) = w

  -- Any number of steps of the other workers.
  pub data Others (v : ℕ) (fs : Pqfs) : Pqfs → Type 0 where
    none_yet : Others v fs fs
    another :
        {t u : Pqfs}
        → Others v fs t
        → (s : Work p codec crypto t u) → worker_of s ≢ v
        → Others v fs u

  abbrev pub Undisturbed : ℕ → ℕ → Pqfs → Pqfs → Type 0
  Undisturbed v ino t u = (u.workers v ≡ t.workers v) × (data_of ino u.mount ≡ data_of ino t.mount)

  Work-Undisturbed :
      {t u : Pqfs} (v ino : ℕ)
      → IsExclusive t.workers
      → works_on ino (t.workers v) ≡ true
      → (s : Work p codec crypto t u) → worker_of s ≢ v
      → Undisturbed v ino t u
  unfolding worker_of take_job proceed store_change commit_change has_write_guard
  Work-Undisturbed {t} v ino h at (Work.take w job rest _ _ _) other =
      (assign_other w (some (Task.waiting job)) t.workers v (ground (arith, other)), refl)
  Work-Undisturbed {t} v ino h at (Work.enter_read w i e offset size _ _) other = (
    assign_other w (some (Task.reading i e offset size)) t.workers v (ground (arith, other)),
    refl,
  )
  Work-Undisturbed {t} v ino h at (Work.leave_read w i e offset size _) other =
      (assign_other w none t.workers v (ground (arith, other)), refl)
  Work-Undisturbed {t} v ino h at (Work.enter_change w i c _ _ _) other = (
    start_change-workers w i c t v (ground (arith, other)),
    ap (data_of ino) (start_change-mount w i c t),
  )
  Work-Undisturbed {t} v ino h at (Work.store w i e c there) other =
      let r = on_data i (do_change p crypto e c) t.mount in
      let file : DataFile = record {
        contents = data_of i t.mount;
        draws = ((t.mount).backend).draws;
      } in
      let k = stored-kept w i e c t r v (ground (arith, other)) in
      let apart : (i == ino) ≡ false = elim (Bool-cases (i == ino)) [
        | inl same ↦
            absurd (other (alone t.workers v w ino h at (ap (has_write_guard ino) there ∙ same)))
        | inr apart ↦ apart
      ] in
      (
        k.0,
        ap (data_of ino) k.1
            ∙ on_data-elsewhere ino i (do_change p crypto e c file).1.contents t.mount apart,
      )
  Work-Undisturbed {t} v ino h at (Work.commit clock w i e c result _) other = (
    assign_other w none t.workers v (ground (arith, other)),
    commit-data clock i c result ino t.mount,
  )

  Others-IsExclusive :
      {v : ℕ} {t u : Pqfs} → Others v t u → IsExclusive t.workers → IsExclusive u.workers
  Others-IsExclusive none_yet h = h
  Others-IsExclusive (another o s other) h =
      Work-IsExclusive p codec crypto s (Others-IsExclusive o h)

  -- From a state whose guards are exclusive, such as one with idle workers, any steps lead to one from which on
  -- the following holds. While a worker is at work on an inode (it is to read the data, or to write them, or to
  -- commit what it wrote), any steps that only other workers make leave its task as it is, and the data file of
  -- the inode as it is.
  pub Others-Undisturbed :
      (v ino : ℕ) {fs t : Pqfs}
      → IsExclusive fs.workers
      → Reach p codec crypto fs t
      → works_on ino (t.workers v) ≡ true
      → {u : Pqfs} → Others v t u
      → Undisturbed v ino t u
  Others-Undisturbed v ino h run at none_yet = (refl, refl)
  Others-Undisturbed v ino h run at (another o s other) =
      let before = Others-Undisturbed v ino h run at o in
      let now =
        Work-Undisturbed v ino (Others-IsExclusive o (Reach-IsExclusive p codec crypto h run))
          (ap (works_on ino) before.0 ∙ at) s other in
      (now.0 ∙ before.0, now.1 ∙ before.1)
