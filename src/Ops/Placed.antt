-- ===== src/Ops/Placed.antt =====
-- The handlers that edit one entry, on the tree of entries: its parent and its kind stay.
use pqfs.Common.{
  ℕ, ◌≡◌, refl, sym, ap, subst, ◌∙◌, Bytes, Option, none, some, Bool-cases, Option-cases, inl, inr,
  ◌==◌, arith,
}
use pqfs.Common.SortedMap
use pqfs.Common.SortedMap.{SortedMap, get-insert}
use pqfs.Crypto.Primitives.{Primitives}
use pqfs.Crypto.Keys.{Crypto}
use pqfs.Index.Entry.{Entry}
use pqfs.Index.State.{Inner, mark_dirty}
use pqfs.Index.Persist.{IndexCodec, Mount}
use pqfs.Index.Tree.{IsTree}
use pqfs.Index.Tree.Changes.{edit-IsTree}
use pqfs.Ops.Attrs.{SetAttr, when_some, with_attrs, commit_write, apply_setattr}
use pqfs.Ops.Attributes.{rewritten, commit_write-some, commit_write-none}
use pqfs.Ops.Evolution.Edits.{IsEdited, apply_setattr-IsEdited}

-- The same place in the tree.
abbrev pub IsPlaced : Entry → Entry → Type 0
IsPlaced e x = (e.parent ≡ x.parent) × (e.kind ≡ x.kind)

replaced-IsTree :
    (m : SortedMap Entry) (ino : ℕ) (x e : Entry)
    → SortedMap.get ino m ≡ some x
    → IsPlaced e x
    → IsTree m
    → IsTree (SortedMap.insert ino e m)
replaced-IsTree m ino x e there placed =
    edit-IsTree m (SortedMap.insert ino e m)
      (λ j y g. elim (Bool-cases (j == ino)) [
        | inl same ↦
            let y' : x ≡ y = ground (arith, g, there, same) in
            (
              e,
              ground (arith, same, get-insert j ino e m),
              placed.0 ∙ ap (λ (z : Entry). z.parent) y',
              placed.1 ∙ ap (λ (z : Entry). z.kind) y',
            )
        | inr other ↦ (y, ground (arith, g, other, get-insert j ino e m), refl, refl)
      ])
      (λ j y g. elim (Bool-cases (j == ino)) [
        | inl same ↦
            let y' : y ≡ e = ground (arith, g, same, get-insert j ino e m) in
            (x, ground (arith, there, same), ap (λ (z : Entry). z.parent) y' ∙ placed.0)
        | inr other ↦ (y, ground (arith, g, other, get-insert j ino e m), refl)
      ])

edited-IsTree :
    (ino : ℕ) (s s' : Inner)
    → IsEdited ino (λ e. (x : Entry) × (SortedMap.get ino s.entries ≡ some x) × IsPlaced e x) s s'
    → IsTree s.entries
    → IsTree s'.entries
edited-IsTree ino s s' (inl same) tree = subst (λ (x : Inner). IsTree x.entries) (sym same) tree
edited-IsTree ino s s' (inr (e, flag, (x, there, placed), edited)) tree =
    subst (λ (x : Inner). IsTree x.entries) (sym edited)
      (replaced-IsTree s.entries ino x e there placed tree)

when_some-IsPlaced {ℓ} :
    {A : Type ℓ} (o : Option A) (change : A → Entry → Entry) (e₀ e : Entry)
    → ((a : A) (e : Entry) → IsPlaced (change a e) e)
    → IsPlaced e e₀
    → IsPlaced (when_some o change e) e₀
when_some-IsPlaced none change e₀ e keeps h = h
when_some-IsPlaced (some a) change e₀ e keeps h = let k = keeps a e in (k.0 ∙ h.0, k.1 ∙ h.1)

with_attrs-IsPlaced : (clock : ℕ) (a : SetAttr) (e : Entry) → IsPlaced (with_attrs clock a e) e
unfolding with_attrs
with_attrs-IsPlaced clock a e =
    when_some-IsPlaced a.truncated _ e _ (λ _ _. (refl, refl))
      (when_some-IsPlaced a.mtime _ e _ (λ _ _. (refl, refl))
        (when_some-IsPlaced a.atime _ e _ (λ _ _. (refl, refl))
          (when_some-IsPlaced a.gid _ e _ (λ _ _. (refl, refl))
            (when_some-IsPlaced a.uid _ e _ (λ _ _. (refl, refl))
              (when_some-IsPlaced a.mode _ e e (λ _ _. (refl, refl)) (refl, refl))))))

pub apply_setattr-IsTree :
    (p : Primitives) (crypto : Crypto) (codec : IndexCodec) (clock ino : ℕ) (a : SetAttr)
    (m : Mount)
    → IsTree (m.inner).entries
    → IsTree ((apply_setattr p crypto codec clock ino a m).1.inner).entries
apply_setattr-IsTree p crypto codec clock ino a m =
    edited-IsTree ino m.inner (apply_setattr p crypto codec clock ino a m).1.inner (
      apply_setattr-IsEdited p crypto codec
        (λ e. (x : Entry) × (SortedMap.get ino (m.inner).entries ≡ some x) × IsPlaced e x) clock ino
        a m (λ e there. (e, there, with_attrs-IsPlaced clock a e)))

pub commit_write-IsTree :
    (clock : ℕ) (s : Inner) (ino : ℕ) (content_key_enc : Bytes) (size : ℕ)
    → IsTree s.entries
    → IsTree (commit_write clock ino content_key_enc size s).1.entries
unfolding mark_dirty
commit_write-IsTree clock s ino content_key_enc size tree =
    elim (Option-cases (SortedMap.get ino s.entries)) [
      | inl missing ↦ rw (commit_write-none clock s ino content_key_enc size missing) tree
      | inr (e, there) ↦ rw (commit_write-some clock s ino content_key_enc size e there) (
          replaced-IsTree s.entries ino e (rewritten clock content_key_enc size e) there
            (refl, refl) tree)
    ]
