-- ===== src/Tables/Frees.antt =====
-- src/io.c: what `io_deinit` gives back, and that it keeps what `conf_deinit` gives back.
use switcher_c.Base.{
  ℕ, zero, suc, ◌+◌, ◌≤◌, ◌≡◌, refl, ap, arith, some, Option, List, [], ◌∷◌, inl, inr, Option-cases,
}
use switcher_c.Base.Int.{pos_part}
use switcher_c.Base.Lists.{First, length, take}
use switcher_c.Config.{IoBus, IoDev, IoConfig, I2cLinuxBusData, DevDrv, mcp23017, Mcp23017Data}
use switcher_c.I2cLinux.{i2c_linux_close}
use switcher_c.IoCore.{for_first}
use switcher_c.IoCore.Lifecycle.{deinit_one, close_one, io_deinit_bus, io_deinit}
use switcher_c.Mcp23017
use switcher_c.Tables.Blocks.{dev_blocks, held}
use switcher_c.World.Weight.{calls, weigh_calls, sum}
use switcher_c.Tables.OpenBus.{IsI2cDev, IsOpenBus}
use switcher_c.Tables.Prepared.{when_some-Returns}
use switcher_c.Tables.{drivers}
use switcher_c.World.{Object, Env, World, Io}
use switcher_c.World.Returns.{Returns, returns, bind, deref-Returns}

-- The weight of the data of an MCP23017, of the counted devices of a bus, and of the counted buses.
abbrev pub data_of : (Object → ℕ) → Option DevDrv → Option Mcp23017Data → ℕ
data_of g (some mcp23017) (some _) = g Object.mcp23017_object
data_of g _ _ = 0

abbrev pub dev_data_blocks : (Object → ℕ) → IoBus → ℕ
dev_data_blocks g bus =
    sum (λ dev. data_of g dev.drv_handle dev.dev_data) (take (pos_part bus.num_devices) bus.devices)

-- A loop over the first elements of an array whose step adds the weight of its element, and keeps
-- a measure of it.
module _ {A : Type 0} (P : A → Type 0) (k g : Object → ℕ) (weight measure : A → ℕ) (body : A → Io A)
    (env : Env)
    (step : (x : A) (w : World)
      → P x
      → Returns
          (λ x' w'.
            (measure x' ≡ measure x) × (weigh_calls k g w'.log ≡ weight x + weigh_calls k g w.log))
          (body x env w)) where
  for_first-frees :
      (n : ℕ) (xs : List A) (w : World)
      → n ≤ length xs
      → First P n xs
      → Returns
          (λ xs' w'.
            (sum measure xs' ≡ sum measure xs)
            × (weigh_calls k g w'.log ≡ sum weight (take n xs) + weigh_calls k g w.log))
          (for_first n body xs env w)
  unfolding for_first
  for_first-frees zero xs w e a = returns (refl, omega arith)
  for_first-frees (suc n) [] w e a = absurd (omega arith)
  for_first-frees (suc n) (x ∷ xs) w e (p, a) = bind (step x w p) λ x' w1 (m, q).
      bind (for_first-frees n xs w1 (omega arith) a)
        λ xs' w2 (ms, r). returns (omega arith, omega arith)

module _ (env : Env) (k g : Object → ℕ) where
  mcp23017_deinit-frees :
      (bus : IoBus) (dev : IoDev) (w : World)
      → Returns
          (λ (_, dev') w'.
            (dev'.dev_bus_data ≡ dev.dev_bus_data)
            × (weigh_calls k g w'.log
                ≡ data_of g (some mcp23017) dev.dev_data + weigh_calls k g w.log))
          (Mcp23017.deinit bus dev env w)
  unfolding Mcp23017.deinit
  mcp23017_deinit-frees bus dev w = elim (Option-cases dev.dev_data) [
    | inl e ↦ rw e (returns (refl, omega arith))
    | inr (b, e) ↦ rw e (returns (refl, omega arith))
  ]

  deinit_one-frees :
      (bus : IoBus) (dev : IoDev) (w : World)
      → IsI2cDev dev
      → Returns
          (λ dev' w'.
            (dev_blocks (calls k g) dev'.dev_bus_data ≡ dev_blocks (calls k g) dev.dev_bus_data)
            × (weigh_calls k g w'.log
                ≡ data_of g dev.drv_handle dev.dev_data + weigh_calls k g w.log))
          (deinit_one drivers bus dev env w)
  unfolding deinit_one
  deinit_one-frees bus dev w (inl h) =
      when_some-Returns _ _ h (returns (refl, omega (arith, ap (λ d. data_of g d dev.dev_data) h)))
  deinit_one-frees bus dev w (inr h) = when_some-Returns _ _ h (
      bind (mcp23017_deinit-frees bus dev w) λ _ w' (same, e).
        returns (
          ap (dev_blocks (calls k g)) same,
          omega (arith, e, ap (λ d. data_of g d dev.dev_data) h),
        ))

  close-frees :
      (bus : IoBus) (w : World) {block : I2cLinuxBusData}
      → bus.bus_data ≡ some block
      → Returns (λ _ w'. weigh_calls k g w'.log ≡ weigh_calls k g w.log) (i2c_linux_close bus env w)
  unfolding i2c_linux_close
  close-frees bus w h =
      bind (deref-Returns env w h) λ b w' (e, same). rw same (returns (omega arith))

  io_deinit_bus-frees :
      (bus : IoBus) (w : World)
      → IsOpenBus bus
      → Returns
          (λ bus' w'.
            (held (calls k g) bus' ≡ held (calls k g) bus)
            × (weigh_calls k g w'.log ≡ dev_data_blocks g bus + weigh_calls k g w.log))
          (io_deinit_bus drivers bus env w)
  unfolding io_deinit_bus close_one
  io_deinit_bus-frees bus w opened =
      bind
        (for_first-frees IsI2cDev k g (λ dev. data_of g dev.drv_handle dev.dev_data)
          (λ dev. dev_blocks (calls k g) dev.dev_bus_data) (deinit_one drivers bus) env
          (λ dev w' p. deinit_one-frees bus dev w' p) (pos_part bus.num_devices) bus.devices w
          opened.bound opened.i2c_devices)
        λ devices w1 (m, e).
          bind {P = λ _ w2. weigh_calls k g w2.log ≡ weigh_calls k g w1.log}
            (when_some-Returns _ _ opened.driver (
              bind (close-frees (record bus { devices = devices }) w1 opened.has_block)
                λ _ w2 e'. returns e'))
            λ _ w2 e'. returns (omega (arith, m), omega (arith, e, e'))

  pub io_deinit-frees :
      (c : IoConfig) (w : World)
      → pos_part c.num_busses ≤ length c.busses
      → First IsOpenBus (pos_part c.num_busses) c.busses
      → Returns
          (λ (_, c') w'.
            (sum (held (calls k g)) c'.busses ≡ sum (held (calls k g)) c.busses)
            × (weigh_calls k g w'.log
                ≡ sum (dev_data_blocks g) (take (pos_part c.num_busses) c.busses)
                  + weigh_calls k g w.log))
          (io_deinit drivers c env w)
  unfolding io_deinit
  io_deinit-frees c w bound opened =
      bind
        (for_first-frees IsOpenBus k g (dev_data_blocks g) (held (calls k g))
          (io_deinit_bus drivers) env (λ bus w' p. io_deinit_bus-frees bus w' p)
          (pos_part c.num_busses) c.busses w bound opened)
        λ busses w1 q. returns q
