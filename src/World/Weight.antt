-- ===== src/World/Weight.antt =====
-- Logs weighed by their calls.
use switcher_c.Base.{ℕ, ◌+◌, ◌≡◌, refl, arith, List, [], ◌∷◌}
use switcher_c.Base.Lists.{All}
use switcher_c.World.{Object, Event, Log}

abbrev pub sum : {A : Type 0} → (A → ℕ) → List A → ℕ
sum f [] = 0
sum f (x ∷ xs) = f x + sum f xs

pub sum-zero :
    {A : Type 0} {P : A → Type 0} (m : A → ℕ) (xs : List A)
    → ((x : A) → P x → m x ≡ 0)
    → All P xs
    → sum m xs ≡ 0
sum-zero m [] zeros a = refl
sum-zero m (x ∷ xs) zeros (p, a) = omega (arith, zeros x p, sum-zero m xs zeros a)

-- The calls of a log, each with a weight.
abbrev pub weigh : (Event → ℕ) → Log → ℕ
weigh f l = sum f l

-- Only `malloc` and `free` weigh something, by what their block is.
abbrev pub calls : (Object → ℕ) → (Object → ℕ) → Event → ℕ
calls k g (Event.malloc block) = k block
calls k g (Event.free block) = g block
calls k g _ = 0

abbrev pub weigh_calls : (Object → ℕ) → (Object → ℕ) → Log → ℕ
weigh_calls k g l = weigh (calls k g) l
