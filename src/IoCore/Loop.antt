-- ===== src/IoCore/Loop.antt =====
-- Rules for the loops of src/io.c: over a whole array, and over the elements that are counted.
use switcher_c.Base.{ℕ, zero, suc, ◌≤◌, ◌≡◌, refl, arith, List, [], ◌∷◌}
use switcher_c.Base.Lists.{All, First, length}
use switcher_c.IoCore.{for_first}
use switcher_c.World.{Env, World, Io}
use switcher_c.World.Returns.{Returns, returns, bind}

-- The body takes an element with `P` to one with `Q`, and keeps `I` of the world.
module _ {A : Type 0} (P Q : A → Type 0) (I : World → Type 0) (body : A → Io A) (env : Env)
    (step : (x : A) (w : World) → P x → I w → Returns (λ x' w'. Q x' × I w') (body x env w)) where
  pub for_first-All :
      (n : ℕ) (xs : List A) (w : World)
      → length xs ≡ n
      → All P xs
      → I w
      → Returns (λ ys w'. (length ys ≡ n) × All Q ys × I w') (for_first n body xs env w)
  unfolding for_first
  for_first-All zero [] w e a i = returns (refl, tt, i)
  for_first-All zero (x ∷ xs) w e a i = absurd (omega arith)
  for_first-All (suc n) [] w e a i = absurd (omega arith)
  for_first-All (suc n) (x ∷ xs) w e (p, a) i = bind (step x w p i) λ x' w1 (q, i1).
      bind (for_first-All n xs w1 (omega arith) a i1)
        λ xs' w2 (l, b, i2). returns (omega arith, (q, b), i2)

-- The body takes an element with `P` to one with `Q`, and keeps `K` of the element and `I` of the
-- world. The elements past the first `n` stay as they are.
module _ {A : Type 0} (P Q K : A → Type 0) (I : World → Type 0) (body : A → Io A) (env : Env)
    (step : (x : A) (w : World)
      → P x
      → K x
      → I w
      → Returns (λ x' w'. Q x' × K x' × I w') (body x env w)) where
  pub for_first-First :
      (n : ℕ) (xs : List A) (w : World)
      → n ≤ length xs
      → First P n xs
      → All K xs
      → I w
      → Returns
          (λ ys w'. (length ys ≡ length xs) × First Q n ys × All K ys × I w')
          (for_first n body xs env w)
  unfolding for_first
  for_first-First zero xs w e f a i = returns (refl, tt, a, i)
  for_first-First (suc n) [] w e f a i = absurd (omega arith)
  for_first-First (suc n) (x ∷ xs) w e (p, f) (k, a) i = bind (step x w p k i) λ x' w1 (q, k', i1).
      bind (for_first-First n xs w1 (omega arith) f a i1)
        λ xs' w2 (l, g, b, i2). returns (omega arith, (q, g), (k', b), i2)
