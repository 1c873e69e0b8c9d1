-- ===== src/Main/Wired.antt =====
-- src/io.c: the blocks that a configuration holds depend on its wiring only, while it serves.
use switcher_c.Base.{
  ℕ, zero, suc, ◌+◌, ◌<◌, ◌≡◌, ◌∙◌, refl, sym, ap, arith, some, Option, List, [], ◌∷◌, map,
}
use switcher_c.Base.Int.{ℤ, pos, negsuc, pos_part, ◌≤ℤ◌}
use switcher_c.Base.Lists.{get_elem?, take}
use switcher_c.Config.{DevDrv, IoBus, IoDev, IoConfig, mcp23017}
use switcher_c.IoCore.Ready.{Serves}
use switcher_c.IoCore.Wiring.{wired_dev, wired_bus, wiring}
use switcher_c.Main.Frees.{all_blocks}
use switcher_c.Tables.Blocks.{held, dev_blocks}
use switcher_c.World.Weight.{calls, sum}
use switcher_c.Tables.Frees.{data_of, dev_data_blocks}
use switcher_c.Tables.Ready.{ReadyFor, pcf8574_ready, mcp23017_ready, piface_ready, contract}
use switcher_c.Tables.{drivers}
use switcher_c.World.{Object, Spi}

sum-eq :
    {A : Type 0} (f h : A → ℕ) (n : ℕ) (xs : List A)
    → ((i : ℕ) (x : A) → i < n → get_elem? xs i ≡ some x → f x ≡ h x)
    → sum f (take n xs) ≡ sum h (take n xs)
sum-eq f h zero xs e = refl
sum-eq f h (suc n) [] e = refl
sum-eq f h (suc n) (x ∷ xs) e =
    omega
      (arith, e 0 x (omega arith) refl, sum-eq f h n xs (λ i y lt at. e (suc i) y (omega arith) at))

sum-map :
    {A : Type 0} (f : A → ℕ) (h : A → A) (xs : List A)
    → ((x : A) → f (h x) ≡ f x)
    → sum f (map h xs) ≡ sum f xs
sum-map f h [] e = refl
sum-map f h (x ∷ xs) e = omega (arith, e x, sum-map f h xs e)

take-map : {A : Type 0} (h : A → A) (n : ℕ) (xs : List A) → take n (map h xs) ≡ map h (take n xs)
take-map h zero xs = refl
take-map h (suc n) [] = refl
take-map h (suc n) (x ∷ xs) = ap (λ ys. h x ∷ ys) (take-map h n xs)

le-of_lt : (i : ℕ) (z : ℤ) → i < pos_part z → pos (suc i) ≤ℤ z
le-of_lt i (pos n) lt = omega arith
le-of_lt i (negsuc n) lt = absurd (omega arith)

-- The weight of a device's data by its driver alone.
abbrev by_driver : (Object → ℕ) → Option DevDrv → ℕ
by_driver g (some mcp23017) = g Object.mcp23017_object
by_driver g _ = 0

abbrev counted : (Object → ℕ) → IoBus → ℕ
counted g bus =
    sum (λ dev. by_driver g dev.drv_handle) (take (pos_part bus.num_devices) bus.devices)

abbrev wired_blocks : (Object → ℕ) → IoConfig → ℕ
wired_blocks g c =
    sum (counted g) (take (pos_part c.num_busses) c.busses) + sum (held (calls g g)) c.busses

module _ (g : Object → ℕ) where
  data_of-Ready :
      {s : Option Spi} (bus : IoBus) (dev : IoDev)
      → ReadyFor bus.bus_data dev s
      → data_of g dev.drv_handle dev.dev_data ≡ by_driver g dev.drv_handle
  data_of-Ready bus dev (pcf8574_ready h _) = rw h refl
  data_of-Ready bus dev (mcp23017_ready h _ b has) = rw (h, has) refl
  data_of-Ready bus dev (piface_ready h _ _) = rw h refl

  all_blocks-Serves :
      {s : Option Spi} (c : IoConfig)
      → Serves drivers contract s c
      → all_blocks g c ≡ wired_blocks g c
  all_blocks-Serves c serves =
      let same : sum (dev_data_blocks g) (take (pos_part c.num_busses) c.busses)
          ≡ sum (counted g) (take (pos_part c.num_busses) c.busses) =
        sum-eq (dev_data_blocks g) (counted g) (pos_part c.num_busses) c.busses λ i bus lt at.
          sum-eq (λ dev. data_of g dev.drv_handle dev.dev_data) (λ dev. by_driver g dev.drv_handle)
            (pos_part bus.num_devices) bus.devices
            λ j dev lt' at'. data_of-Ready bus dev (
              (serves.bus_ready i bus (le-of_lt i c.num_busses lt) at).dev_ready j dev
                (le-of_lt j bus.num_devices lt') at') in
      ap (λ (n : ℕ). n + sum (held (calls g g)) c.busses) same

  counted-wired : (bus : IoBus) → counted g (wired_bus bus) ≡ counted g bus
  counted-wired bus =
      ap (sum (λ dev. by_driver g dev.drv_handle))
        (take-map wired_dev (pos_part bus.num_devices) bus.devices)
      ∙ sum-map (λ dev. by_driver g dev.drv_handle) wired_dev
          (take (pos_part bus.num_devices) bus.devices) (λ dev. refl)

  held-wired : (bus : IoBus) → held (calls g g) (wired_bus bus) ≡ held (calls g g) bus
  held-wired bus =
      let same =
        sum-map (λ dev. dev_blocks (calls g g) dev.dev_bus_data) wired_dev bus.devices
          (λ dev. refl) in
      omega (arith, same)

  wired_blocks-wiring : (c : IoConfig) → wired_blocks g (wiring c) ≡ wired_blocks g c
  wired_blocks-wiring c =
      let first =
        ap (sum (counted g)) (take-map wired_bus (pos_part c.num_busses) c.busses)
        ∙ sum-map (counted g) wired_bus (take (pos_part c.num_busses) c.busses) counted-wired in
      let second = sum-map (held (calls g g)) wired_bus c.busses held-wired in
      omega (arith, first, second)

  -- Two configurations that serve and have the same wiring hold the same blocks.
  pub all_blocks-wiring :
      {s t : Option Spi} (c c' : IoConfig)
      → Serves drivers contract s c
      → Serves drivers contract t c'
      → wiring c' ≡ wiring c
      → all_blocks g c' ≡ all_blocks g c
  all_blocks-wiring c c' serves serves' e =
      all_blocks-Serves c' serves'
      ∙ sym (wired_blocks-wiring c')
      ∙ ap (wired_blocks g) e
      ∙ wired_blocks-wiring c
      ∙ sym (all_blocks-Serves c serves)
