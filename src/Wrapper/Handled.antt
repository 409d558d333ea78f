-- ===== src/Wrapper/Handled.antt =====
-- What a request leaves of the entries: their content, and the numbers that were used.
use pqfs.Common.{
  ℕ, ◌≡◌, refl, sym, subst, Bool, true, false, Option, none, some, Result, ok, err, Option-cases,
  inl, inr, if◌then◌else◌,
}
use pqfs.Common.After.{After-state}
use pqfs.Common.Exec.{and_then}
use pqfs.Crypto.Primitives.{Primitives}
use pqfs.Crypto.Keys.{Crypto}
use pqfs.Index.Entry.{EntryKind}
use pqfs.Index.Persist.{IndexCodec, Mount, save_index, flush_index}
use pqfs.Ops.Attrs.{SetAttr, apply_setattr}
use pqfs.Ops.Evolution.{Evolves, Evolves-refl}
use pqfs.Ops.Evolution.Edits.{
  IsEdited-Evolves, IsOld, with_attrs-IsSameContent, apply_setattr-IsEdited,
}
use pqfs.Ops.Evolution.Handlers.{
  Keeps, save-Keeps, create-Keeps, mkdir-Keeps, symlink-Keeps, unlink-Keeps, rmdir-Keeps,
  rename-Keeps,
}
use pqfs.Wrapper.State.{Pqfs}
use pqfs.Wrapper.Requests
use pqfs.Wrapper.Requests.{sync-then, setattr_entry, kind_of}
use pqfs.Wrapper.Steps.{Request, handle}
use pqfs.Wrapper.Invariant.{read-mount, write-mount, resize-mount}

pub mapped_state :
    {A B : Type 0} (g : A → B) (r : Result A × Mount) → (and_then r (λ a m. (ok (g a), m))).1 ≡ r.1
mapped_state g (ok a, m) = refl
mapped_state g (err e, m) = refl

module _ (p : Primitives) (codec : IndexCodec) (crypto : Crypto) where
  handled :
      {A : Type 0} (m : Mount) (r : Result A × Mount)
      → Keeps (m.inner).next_ino m.inner r
      → Evolves (m.inner).next_ino m.inner (r.1).inner
  handled m r k =
      After-state (λ m'. Evolves (m.inner).next_ino m.inner m'.inner) r (λ _ m' h. h) (λ m' h. h) k

  same_mount : (m m' : Mount) → m' ≡ m → Evolves (m.inner).next_ino m.inner m'.inner
  same_mount m m' e =
      subst (λ (x : Mount). Evolves (m.inner).next_ino m.inner x.inner) (sym e)
        (Evolves-refl (m.inner).next_ino m.inner)

  flush_index-Evolves :
      (m : Mount) → Evolves (m.inner).next_ino m.inner (flush_index p codec crypto m).1.inner
  unfolding flush_index
  flush_index-Evolves m = by_flag (m.inner).dirty
    where
      by_flag :
          (b : Bool)
          → Evolves
              (m.inner).next_ino
              m.inner
              (if b then save_index p codec crypto m else (ok tt, m)).1.inner
      by_flag true = handled m (save_index p codec crypto m) (
          save-Keeps p codec crypto (m.inner).next_ino m.inner m
            (Evolves-refl (m.inner).next_ino m.inner))
      by_flag false = Evolves-refl (m.inner).next_ino m.inner

  setattr_entry-Evolves :
      (clock ino : ℕ) (a : SetAttr) (fs : Pqfs) (kind : EntryKind) (size : Option ℕ)
      → let m = fs.mount in
        Evolves
          (m.inner).next_ino
          m.inner
          ((setattr_entry p codec crypto clock ino a fs kind size).1.mount).inner
  unfolding setattr_entry
  setattr_entry-Evolves clock ino a fs kind none =
      let a' : SetAttr = record a { truncated = none } in
      let m = fs.mount in
      subst (λ (x : Mount). Evolves (m.inner).next_ino m.inner x.inner)
        (sym (mapped_state (λ x. some x) (apply_setattr p crypto codec clock ino a' m)))
        (IsEdited-Evolves ino (m.inner).next_ino m.inner _ (
          apply_setattr-IsEdited p crypto codec (IsOld ino m.inner) clock ino a' m
            (λ e there. (e, there, with_attrs-IsSameContent clock a e))))
  setattr_entry-Evolves clock ino a fs kind (some size) =
      same_mount fs.mount _ (resize-mount ino size a fs kind)

  setattr-Evolves :
      (clock ino : ℕ) (size : Option ℕ) (a : SetAttr) (fs : Pqfs)
      → let m = fs.mount in
        Evolves
          (m.inner).next_ino
          m.inner
          ((Requests.setattr p codec crypto clock ino size a fs).1.mount).inner
  unfolding Requests.setattr
  setattr-Evolves clock ino size a fs = elim (Option-cases (kind_of ino fs)) [
    | inl missing ↦ rw (missing, Requests.setattr) (Evolves-refl _ _)
    | inr (kind, there) ↦
        rw (there, Requests.setattr) (setattr_entry-Evolves clock ino a fs kind size)
  ]

  pub handle-Evolves :
      (r : Request) (fs : Pqfs)
      → let m = fs.mount in
        Evolves (m.inner).next_ino m.inner ((handle p codec crypto r fs).mount).inner
  unfolding handle Requests.create Requests.mkdir Requests.symlink Requests.unlink Requests.rmdir
      Requests.rename Requests.fsync Requests.flush Requests.fsyncdir
  handle-Evolves (Request.create c parent name mode) fs =
      handled fs.mount _ (create-Keeps p codec crypto fs.mount c parent name mode)
  handle-Evolves (Request.mkdir c parent name mode) fs =
      handled fs.mount _ (mkdir-Keeps p codec crypto fs.mount c parent name mode)
  handle-Evolves (Request.symlink c parent name target) fs =
      handled fs.mount _ (symlink-Keeps p codec crypto fs.mount c parent name target)
  handle-Evolves (Request.unlink parent name) fs =
      handled fs.mount _ (unlink-Keeps p codec crypto fs.mount parent name)
  handle-Evolves (Request.rmdir parent name) fs =
      handled fs.mount _ (rmdir-Keeps p codec crypto fs.mount parent name)
  handle-Evolves (Request.rename clock parent name newparent newname) fs =
      handled fs.mount _ (rename-Keeps p codec crypto fs.mount clock parent name newparent newname)
  handle-Evolves (Request.read ino offset size) fs =
      same_mount fs.mount _ (read-mount ino offset size fs)
  handle-Evolves (Request.write ino offset input) fs =
      same_mount fs.mount _ (write-mount ino offset input fs)
  handle-Evolves (Request.setattr clock ino size a) fs = setattr-Evolves clock ino size a fs
  handle-Evolves (Request.fsync synced ino) fs =
      sync-then (λ m. Evolves ((fs.mount).inner).next_ino (fs.mount).inner m.inner) synced ino _
        fs.mount (Evolves-refl _ _) (flush_index-Evolves fs.mount)
  handle-Evolves (Request.flush synced ino) fs =
      sync-then (λ m. Evolves ((fs.mount).inner).next_ino (fs.mount).inner m.inner) synced ino _
        fs.mount (Evolves-refl _ _) (flush_index-Evolves fs.mount)
  handle-Evolves Request.fsyncdir fs = flush_index-Evolves fs.mount
