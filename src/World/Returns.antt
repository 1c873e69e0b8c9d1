-- ===== src/World/Returns.antt =====
-- Total correctness of a run: it ends without undefined behaviour, and its result and the world
-- behind it satisfy a postcondition.
use switcher_c.World.{Env, World, Run, ok, fault, and_then, deref}
use mathlib.Core.Path.{subst}
use switcher_c.Base.{◌≡◌, sym, refl, Option, some}

pub data Returns {A : Type 0} (P : A → World → Type 0) : Run A → Type 0 where
  returns : {a : A} {w : World} → P a w → Returns P (ok a w)

module _ {A : Type 0} {P : A → World → Type 0} where
  pub bind :
      {B : Type 0} {Q : B → World → Type 0} {r : Run A} {k : A → World → Run B}
      → Returns P r
      → ((a : A) (w : World) → P a w → Returns Q (k a w))
      → Returns Q (and_then r k)
  bind (returns p) next = next _ _ p

  pub weaken :
      {Q : A → World → Type 0} {r : Run A}
      → Returns P r
      → ((a : A) (w : World) → P a w → Q a w)
      → Returns Q r
  weaken (returns p) imp = returns (imp _ _ p)

-- A pointer that is not NULL is read without an effect.
pub deref-Returns :
    {A : Type 0} {o : Option A} {a : A} (env : Env) (w : World)
    → o ≡ some a
    → Returns (λ x w'. (x ≡ a) × (w' ≡ w)) (deref o env w)
deref-Returns {a = a} env w e = rw e (returns (refl, refl))

pub and_then_assoc :
    {A B C : Type 0} (r : Run A) (k : A → World → Run B) (h : B → World → Run C)
    → and_then (and_then r k) h ≡ and_then r (λ a w. and_then (k a w) h)
and_then_assoc (ok a w) k h = refl
and_then_assoc fault k h = refl

pub Returns-of_eq :
    {A : Type 0} {P : A → World → Type 0} {r : Run A} {a : A} {w : World}
    → r ≡ ok a w
    → P a w
    → Returns P r
Returns-of_eq {P = P} e p = subst (Returns P) (sym e) (returns p)

-- Undefined behaviour behind a run that ends.
pub Returns-fault :
    {A B : Type 0} {P : A → World → Type 0} {r : Run A} {k : A → World → Run B}
    → Returns P r
    → ((a : A) (w : World) → P a w → k a w ≡ fault)
    → and_then r k ≡ fault
Returns-fault (returns p) faults = faults _ _ p

-- Two postconditions of one run.
Returns-ok : {A : Type 0} {P : A → World → Type 0} {a : A} {w : World} → Returns P (ok a w) → P a w
Returns-ok (returns p) = p

pub Returns-both :
    {A : Type 0} {P Q : A → World → Type 0} {r : Run A}
    → Returns P r
    → Returns Q r
    → Returns (λ a w. P a w × Q a w) r
Returns-both (returns p) q = returns (p, Returns-ok q)
