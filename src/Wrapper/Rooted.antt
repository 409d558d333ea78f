-- ===== src/Wrapper/Rooted.antt =====
-- Whatever requests come, and however the workers interleave with them, the entries stay a tree.
use pqfs.Common.{
  ℕ, ◌≡◌, sym, subst, Bytes, Bool, true, false, Option, none, some, Result, ok, err, Option-cases,
  inl, inr, if◌then◌else◌,
}
use pqfs.Common.After.{After-state}
use pqfs.Crypto.Primitives.{Primitives, IsSound}
use pqfs.Crypto.Keys.{Crypto}
use pqfs.Index.Entry.{Entry, EntryKind}
use pqfs.Index.State.{Inner}
use pqfs.Index.Names.{hash_filename}
use pqfs.Index.Persist.{IndexCodec, Mount, save_index, flush_index}
use pqfs.Index.Tree.{IsDirectory, IsTree}
use pqfs.Index.WellFormed.{IsIndex}
use pqfs.Ops.Attrs.{SetAttr, apply_setattr}
use pqfs.Ops.Moving.{rename-IsTree}
use pqfs.Ops.Placed.{apply_setattr-IsTree, commit_write-IsTree}
use pqfs.Ops.Removal.{save_index-inner}
use pqfs.Ops.Rooted.{
  Whole, StaysWhole, create-IsTree, mkdir-IsTree, symlink-IsTree, unlink-IsTree, rmdir-IsTree,
}
use pqfs.Wrapper.State.{Change, Pqfs, on_data}
use pqfs.Wrapper.Requests
use pqfs.Wrapper.Requests.{sync-then, setattr_entry, kind_of}
use pqfs.Wrapper.Handled.{mapped_state}
use pqfs.Wrapper.Jobs.{take_job, proceed, do_change, stored, store_change, commit, commit_change}
use pqfs.Wrapper.Invariant.{
  read-mount, write-mount, resize-mount, start_change-mount, Reach-IsIndex,
}
use pqfs.Wrapper.Steps.{Request, handle, Work, Step, Reach, here, next}

-- What the kernel looks after: it asks for a new entry in a directory only.
abbrev pub IsParented : Request → Pqfs → Type 0
IsParented (Request.create c parent name mode) fs = IsDirectory ((fs.mount).inner).entries parent
IsParented (Request.mkdir c parent name mode) fs = IsDirectory ((fs.mount).inner).entries parent
IsParented (Request.symlink c parent name target) fs = IsDirectory ((fs.mount).inner).entries parent
IsParented _ fs = Unit {0}

module _ (p : Primitives) (codec : IndexCodec) (crypto : Crypto) where
  -- All requests of a run were so.
  abbrev pub AllParented : {fs t : Pqfs} → Reach p codec crypto fs t → Type 0
  AllParented here = Unit {0}
  AllParented (next {t} r (Step.request q _ _)) = AllParented r × IsParented q t
  AllParented (next r (Step.work w)) = AllParented r

  ended : {A : Type 0} (r : Result A × Mount) → StaysWhole r → Whole r.1
  ended r h = After-state Whole r (λ _ m' w. w) (λ m' w. w) h

  flush_index-IsTree : (m : Mount) → Whole m → Whole (flush_index p codec crypto m).1
  unfolding flush_index
  flush_index-IsTree m h = by_flag (m.inner).dirty
    where
      by_flag : (b : Bool) → Whole (if b then save_index p codec crypto m else (ok tt, m)).1
      by_flag true =
          subst (λ (s : Inner). IsTree s.entries) (sym (save_index-inner p codec crypto m).1) h
      by_flag false = h

  setattr_entry-IsTree :
      (clock ino : ℕ) (a : SetAttr) (fs : Pqfs) (kind : EntryKind) (size : Option ℕ)
      → Whole fs.mount
      → Whole (setattr_entry p codec crypto clock ino a fs kind size).1.mount
  unfolding setattr_entry
  setattr_entry-IsTree clock ino a fs kind none h =
      let a' : SetAttr = record a { truncated = none } in
      subst Whole
        (sym (mapped_state (λ x. some x) (apply_setattr p crypto codec clock ino a' fs.mount)))
        (apply_setattr-IsTree p crypto codec clock ino a' fs.mount h)
  setattr_entry-IsTree clock ino a fs kind (some size) h =
      subst Whole (sym (resize-mount ino size a fs kind)) h

  setattr-IsTree :
      (clock ino : ℕ) (size : Option ℕ) (a : SetAttr) (fs : Pqfs)
      → IsTree ((fs.mount).inner).entries
      → IsTree ((Requests.setattr p codec crypto clock ino size a fs).1.mount.inner).entries
  unfolding Requests.setattr
  setattr-IsTree clock ino size a fs h = elim (Option-cases (kind_of ino fs)) [
    | inl missing ↦ rw (missing, Requests.setattr) h
    | inr (kind, there) ↦
        rw (there, Requests.setattr) (setattr_entry-IsTree clock ino a fs kind size h)
  ]

  handle-IsTree :
      (r : Request) (fs : Pqfs)
      → IsIndex p crypto (fs.mount).inner
      → Whole fs.mount
      → IsParented r fs
      → Whole (handle p codec crypto r fs).mount
  unfolding handle Requests.create Requests.mkdir Requests.symlink Requests.unlink Requests.rmdir
      Requests.rename Requests.fsync Requests.flush Requests.fsyncdir
  handle-IsTree (Request.create c parent name mode) fs i h dir =
      ended _ (create-IsTree p codec crypto fs.mount i h parent name c dir mode)
  handle-IsTree (Request.mkdir c parent name mode) fs i h dir =
      ended _ (mkdir-IsTree p codec crypto fs.mount i h parent name c dir mode)
  handle-IsTree (Request.symlink c parent name target) fs i h dir =
      ended _ (symlink-IsTree p codec crypto fs.mount i h parent name c dir target)
  handle-IsTree (Request.unlink parent name) fs i h _ =
      ended _ (unlink-IsTree p codec crypto fs.mount i h parent name)
  handle-IsTree (Request.rmdir parent name) fs i h _ =
      ended _ (rmdir-IsTree p codec crypto fs.mount i h parent name)
  handle-IsTree (Request.rename clock parent name newparent newname) fs i h _ =
      ended _ (rename-IsTree p codec crypto fs.mount i.linked h parent name newparent newname clock)
  handle-IsTree (Request.read ino offset size) fs i h _ =
      subst Whole (sym (read-mount ino offset size fs)) h
  handle-IsTree (Request.write ino offset input) fs i h _ =
      subst Whole (sym (write-mount ino offset input fs)) h
  handle-IsTree (Request.setattr clock ino size a) fs i h _ = setattr-IsTree clock ino size a fs h
  handle-IsTree (Request.fsync synced ino) fs i h _ =
      sync-then Whole synced ino _ fs.mount h (flush_index-IsTree fs.mount h)
  handle-IsTree (Request.flush synced ino) fs i h _ =
      sync-then Whole synced ino _ fs.mount h (flush_index-IsTree fs.mount h)
  handle-IsTree Request.fsyncdir fs i h _ = flush_index-IsTree fs.mount h

  commit-IsTree :
      (clock ino : ℕ) (c : Change) (result : Bytes × ℕ) (m : Mount)
      → Whole m
      → Whole (commit p crypto codec clock ino c result m).1
  unfolding commit
  commit-IsTree clock ino (Change.write offset input) result m h =
      commit_write-IsTree clock m.inner ino result.0 result.1 h
  commit-IsTree clock ino (Change.truncate size a) result m h =
      apply_setattr-IsTree p crypto codec clock ino (record a { truncated = some result }) m h

  stored-IsTree :
      (w ino : ℕ) (e : Entry) (c : Change) (fs : Pqfs) (r : Result (Bytes × ℕ) × Mount)
      → Whole r.1
      → Whole (stored p crypto w ino e c fs r).1.mount
  unfolding proceed
  stored-IsTree w ino e c fs (ok result, m) h = h
  stored-IsTree w ino e c fs (err x, m) h = h

  Work-IsTree : {t u : Pqfs} → Work p codec crypto t u → Whole t.mount → Whole u.mount
  unfolding take_job proceed store_change commit_change
  Work-IsTree (Work.take w job rest _ _ _) h = h
  Work-IsTree (Work.enter_read w ino e offset size _ _) h = h
  Work-IsTree (Work.leave_read w ino e offset size _) h = h
  Work-IsTree {t} (Work.enter_change w ino c _ _ _) h =
      subst Whole (sym (start_change-mount w ino c t)) h
  Work-IsTree {t} (Work.store w ino e c _) h =
      stored-IsTree w ino e c t (on_data ino (do_change p crypto e c) t.mount) h
  Work-IsTree {t} (Work.commit clock w ino e c result _) h =
      commit-IsTree clock ino c result t.mount h

  -- With a sound cipher, and if no two names have the same hash: from a state whose index is well-formed and
  -- whose entries are a tree, any requests with names in UTF-8, those for a new entry in a directory that is
  -- there, interleaved in any way with the steps of the workers, lead to a state whose entries are a tree:
  -- each entry's parent is a directory, and the way up from each leads to the root.
  pub Reach-IsTree :
      (sound : IsSound p)
      (apart : (a b : Bytes) → hash_filename p crypto a ≡ hash_filename p crypto b → a ≡ b)
      {fs t : Pqfs}
      → IsIndex p crypto (fs.mount).inner
      → IsTree ((fs.mount).inner).entries
      → (r : Reach p codec crypto fs t) → AllParented r
      → IsTree ((t.mount).inner).entries
  Reach-IsTree sound apart i h here _ = h
  Reach-IsTree sound apart i h (next {t} r (Step.request q valid unlocked)) (all, dir) =
      handle-IsTree q t (Reach-IsIndex p sound codec crypto apart i r)
        (Reach-IsTree sound apart i h r all) dir
  Reach-IsTree sound apart i h (next r (Step.work w)) all =
      Work-IsTree w (Reach-IsTree sound apart i h r all)
