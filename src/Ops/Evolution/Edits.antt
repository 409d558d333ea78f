-- ===== src/Ops/Evolution/Edits.antt =====
-- `commit_write` and `apply_setattr` edit one entry: the others stay, and without a new size its content stays.
use pqfs.Common.{
  ℕ, ◌≡◌, refl, sym, ap, subst, ◌∙◌, ◌⊎◌, Bytes, Bool, true, false, Option, none, some,
  Option-cases, inl, inr, arith, ◌==◌, enoent,
}
use pqfs.Common.SortedMap
use pqfs.Common.SortedMap.{get-insert}
use pqfs.Common.After.{After, After-ok, After-err, After-bind, After-weaken, After-state}
use pqfs.Crypto.Primitives.{Primitives}
use pqfs.Crypto.Keys.{Crypto}
use pqfs.Index.Entry.{Entry}
use pqfs.Index.State.{Inner, mark_dirty}
use pqfs.Index.Names.{attr_for}
use pqfs.Index.Persist.{IndexCodec, Mount}
use pqfs.Ops.Attrs.{
  SetAttr, when_some, with_attrs, put_attrs, commit_write, entry_of, apply_setattr,
}
use pqfs.Ops.Attributes.{rewritten, modify_entry-some, commit_write-some, commit_write-none}
use pqfs.Ops.Steps.{save-After}
use pqfs.Ops.Evolution.{IsSameContent, Evolves, Evolves-refl, Evolves-step, insert_step}

-- At most one entry has changed, to one of which `R` holds.
abbrev pub IsEdited : ℕ → (Entry → Type 0) → Inner → Inner → Type 0
IsEdited ino R s s' =
    (s' ≡ s)
    ⊎ ((e : Entry) × (flag : Bool) × R e
        × (s' ≡ record s { entries = SortedMap.insert ino e s.entries; dirty = flag }))

-- Any entry will do.
abbrev pub Any : Entry → Type 0
Any e = Unit {0}

pub IsEdited-next :
    (ino : ℕ) (R : Entry → Type 0) (s s' : Inner) → IsEdited ino R s s' → s'.next_ino ≡ s.next_ino
IsEdited-next ino R s s' (inl same) = ap (λ (x : Inner). x.next_ino) same
IsEdited-next ino R s s' (inr (e, flag, r, edited)) = ap (λ (x : Inner). x.next_ino) edited

pub IsEdited-elsewhere :
    (ino : ℕ) (R : Entry → Type 0) (s s' : Inner) (j : ℕ)
    → IsEdited ino R s s'
    → (j == ino) ≡ false
    → SortedMap.get j s'.entries ≡ SortedMap.get j s.entries
IsEdited-elsewhere ino R s s' j (inl same) other =
    ap (λ (x : Inner). SortedMap.get j x.entries) same
IsEdited-elsewhere ino R s s' j (inr (e, flag, r, edited)) other =
    ap (λ (x : Inner). SortedMap.get j x.entries) edited
    ∙ get-insert j ino e s.entries
    ∙ rw other refl

-- An entry with the content of the one that was there.
abbrev pub IsOld : ℕ → Inner → Entry → Type 0
IsOld ino s e = (y : Entry) × (SortedMap.get ino s.entries ≡ some y) × IsSameContent e y

pub IsEdited-Evolves : (ino n : ℕ) (s s' : Inner) → IsEdited ino (IsOld ino s) s s' → Evolves n s s'
IsEdited-Evolves ino n s s' (inl same) = subst (Evolves n s) (sym same) (Evolves-refl n s)
IsEdited-Evolves ino n s s' (inr (e, flag, old, edited)) =
    let s'' : Inner = record s { entries = SortedMap.insert ino e s.entries; dirty = flag } in
    subst (Evolves n s) (sym edited) (
      Evolves-step n s s s'' (Evolves-refl n s) (omega arith)
        (insert_step n s s'' e ino (inr old) (λ i. get-insert i ino e s.entries)))

when_some-IsSameContent {ℓ} :
    {A : Type ℓ} (o : Option A) (change : A → Entry → Entry) (e₀ e : Entry)
    → ((a : A) (e : Entry) → IsSameContent (change a e) e)
    → IsSameContent e e₀
    → IsSameContent (when_some o change e) e₀
when_some-IsSameContent none change e₀ e keeps h = h
when_some-IsSameContent (some a) change e₀ e keeps h =
    let k = keeps a e in (k.0 ∙ h.0, k.1 ∙ h.1, k.2 ∙ h.2)

pub with_attrs-IsSameContent :
    (clock : ℕ) (a : SetAttr) (e : Entry)
    → IsSameContent (with_attrs clock (record a { truncated = none }) e) e
unfolding with_attrs
with_attrs-IsSameContent clock a e =
    when_some-IsSameContent a.mtime _ e _ (λ _ _. (refl, refl, refl))
      (when_some-IsSameContent a.atime _ e _ (λ _ _. (refl, refl, refl))
        (when_some-IsSameContent a.gid _ e _ (λ _ _. (refl, refl, refl))
          (when_some-IsSameContent a.uid _ e _ (λ _ _. (refl, refl, refl))
            (when_some-IsSameContent a.mode _ e e (λ _ _. (refl, refl, refl)) (refl, refl, refl)))))

pub commit_write-IsEdited :
    (clock : ℕ) (s : Inner) (ino : ℕ) (content_key_enc : Bytes) (size : ℕ)
    → IsEdited ino Any s (commit_write clock ino content_key_enc size s).1
unfolding mark_dirty
commit_write-IsEdited clock s ino content_key_enc size =
    elim (Option-cases (SortedMap.get ino s.entries)) [
      | inl missing ↦
          inl (ap (λ r. r.1) (commit_write-none clock s ino content_key_enc size missing))
      | inr (e, there) ↦ inr (
        rewritten clock content_key_enc size e,
        true,
        tt,
        ap (λ r. r.1) (commit_write-some clock s ino content_key_enc size e there),
      )
    ]

module _ (p : Primitives) (crypto : Crypto) (codec : IndexCodec) where
  setattr_steps :
      (R : Entry → Type 0) (clock ino : ℕ) (a : SetAttr) (m : Mount)
      → ((e : Entry) → SortedMap.get ino (m.inner).entries ≡ some e → R (with_attrs clock a e))
      → After
          (λ _ m'. IsEdited ino R m.inner m'.inner)
          (λ m'. IsEdited ino R m.inner m'.inner)
          (apply_setattr p crypto codec clock ino a m)
  unfolding apply_setattr entry_of put_attrs
  setattr_steps R clock ino a m holds = elim (Option-cases (SortedMap.get ino (m.inner).entries)) [
    | inl missing ↦ rw missing (After-err enoent m (inl refl))
    | inr (e, there) ↦
        let e' = with_attrs clock a e in
        let s' : Inner = record (m.inner) { entries = SortedMap.insert ino e' (m.inner).entries } in
        rw there (
          rw (modify_entry-some ino (with_attrs clock a) m.inner e there) (
            After-bind _ _
              (After-weaken _ (λ _ t f. f) (λ t f. inr (e', f.0, holds e there, f.1))
                (save-After p codec crypto (record m { inner = s' })))
              (λ _ t f. After-ok (attr_for e') t (inr (e', f.0, holds e there, f.1)))))
  ]

  pub apply_setattr-IsEdited :
      (R : Entry → Type 0) (clock ino : ℕ) (a : SetAttr) (m : Mount)
      → ((e : Entry) → SortedMap.get ino (m.inner).entries ≡ some e → R (with_attrs clock a e))
      → IsEdited ino R m.inner (apply_setattr p crypto codec clock ino a m).1.inner
  apply_setattr-IsEdited R clock ino a m holds =
      After-state (λ m'. IsEdited ino R m.inner m'.inner)
        (apply_setattr p crypto codec clock ino a m) (λ _ m' k. k) (λ m' k. k)
        (setattr_steps R clock ino a m holds)
