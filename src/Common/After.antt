-- ===== src/Common/After.antt =====
-- What holds after a computation: `After Q E r` says that a value and the state it leaves satisfy `Q`, and
-- that the state an error leaves satisfies `E`.
use mathlib.Core.Path.{◌≡◌, refl, ap, subst}
use native.Mathlib.Omega.{arith}
use pqfs.Common.Results.{Error, Result, ok, err}
use pqfs.Common.Exec.{Exec, and_then}

pub record After {S A : Type 0} (Q : A → S → Type 0) (E : S → Type 0) (r : Result A × S)
    : Type 0 where
  pub good : (a : A) (s : S) → r ≡ (ok a, s) → Q a s
  pub bad : (e : Error) (s : S) → r ≡ (err e, s) → E s

pub ok-injective : {A : Type 0} {a b : A} → ok a ≡ ok b → a ≡ b
ok-injective h = cc h

module _ {S A : Type 0} {Q : A → S → Type 0} {E : S → Type 0} where
  pub After-ok : (a : A) (s : S) → Q a s → After Q E (ok a, s)
  After-ok a s h = record {
    good = λ b t e.
        subst (λ x. Q x t) (ok-injective (ap (λ r. r.0) e)) (subst (Q a) (ap (λ r. r.1) e) h);
    bad = λ x t e. absurd (ground (arith, e));
  }

  pub After-err : (x : Error) (s : S) → E s → After Q E (err x, s)
  After-err x s h = record {
    good = λ b t e. absurd (ground (arith, e));
    bad = λ y t e. subst E (ap (λ r. r.1) e) h;
  }

  -- A result that is given, on an unchanged state.
  pub After-lift : (r : Result A) (s : S) → ((a : A) → r ≡ ok a → Q a s) → E s → After Q E (r, s)
  After-lift (ok a) s h g = After-ok a s (h a refl)
  After-lift (err e) s h g = After-err e s g

  -- What holds of the state whatever came of it.
  pub After-state :
      (P : S → Type 0) (r : Result A × S)
      → ((a : A) (s : S) → Q a s → P s)
      → ((s : S) → E s → P s)
      → After Q E r
      → P r.1
  After-state P (ok a, s) f g h = f a s (h.good a s refl)
  After-state P (err e, s) f g h = g s (h.bad e s refl)

-- The step after a step.
pub After-bind :
    {S A B : Type 0} {P : A → S → Type 0} {Q : B → S → Type 0} {E : S → Type 0} (r : Result A × S)
    (f : A → Exec S B)
    → After P E r
    → ((a : A) (s : S) → P a s → After Q E (f a s))
    → After Q E (and_then r f)
After-bind (ok a, s) f h g = g a s (h.good a s refl)
After-bind (err e, s) f h g = After-err e s (h.bad e s refl)

-- Less is asked for.
pub After-weaken :
    {S A : Type 0} {P Q : A → S → Type 0} {E F : S → Type 0} (r : Result A × S)
    → ((a : A) (s : S) → P a s → Q a s)
    → ((s : S) → E s → F s)
    → After P E r
    → After Q F r
After-weaken r f g h = record {
  good = λ a s e. f a s (h.good a s e);
  bad = λ x s e. g s (h.bad x s e);
}
