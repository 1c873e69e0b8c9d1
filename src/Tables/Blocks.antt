-- ===== src/Tables/Blocks.antt =====
-- src/io.c: the blocks that a configuration holds, and what `conf_deinit` gives back of them.
use switcher_c.Base.{ℕ, zero, suc, ◌+◌, ◌≡◌, refl, ap, arith, none, some, Option, List, [], ◌∷◌}
use switcher_c.Base.Int.{pos}
use switcher_c.Base.Lists.{All, All-any, length}
use switcher_c.Config.{
  IoBus, IoDev, IoConfig, i2c_linux, max_busses, max_io_devices, I2cLinuxBusData, I2cLinuxDevData,
}
use switcher_c.I2cLinux.{discard_i2c_linux_bus_data, discard_i2c_linux_bus_dev_data}
use switcher_c.IoCore.{for_first}
use switcher_c.IoCore.Lifecycle.{discard_one, discard_bus, conf_deinit_bus, conf_deinit}
use switcher_c.Tables.Discard.{HasNoBlock, CanDiscard, by_driver, empty, when_some-none}
use switcher_c.Tables.Prepared.{when_some-Returns}
use switcher_c.Tables.{drivers}
use switcher_c.World.Weight.{sum, weigh}
use switcher_c.World.{Object, Event, Env, World, Io}
use switcher_c.World.Returns.{Returns, returns, bind}

-- The weight of freeing every block once: of a device, of a bus with its devices, of all buses.
abbrev pub dev_blocks : (Event → ℕ) → Option I2cLinuxDevData → ℕ
dev_blocks f none = 0
dev_blocks f (some _) = f (Event.free Object.dev_data_object)

abbrev pub bus_blocks : (Event → ℕ) → Option I2cLinuxBusData → ℕ
bus_blocks f none = 0
bus_blocks f (some _) = f (Event.free Object.bus_data_object)

abbrev pub held : (Event → ℕ) → IoBus → ℕ
held f bus = bus_blocks f bus.bus_data + sum (λ dev. dev_blocks f dev.dev_bus_data) bus.devices

-- A loop over a whole array whose step adds the weight of its element.
module _ {A : Type 0} (P : A → Type 0) (f : Event → ℕ) (weight : A → ℕ) (body : A → Io A)
    (env : Env)
    (step : (x : A) (w : World)
      → P x
      → Returns (λ _ w'. weigh f w'.log ≡ weight x + weigh f w.log) (body x env w)) where
  for_first-sum :
      (n : ℕ) (xs : List A) (w : World)
      → length xs ≡ n
      → All P xs
      → Returns (λ _ w'. weigh f w'.log ≡ sum weight xs + weigh f w.log) (for_first n body xs env w)
  unfolding for_first
  for_first-sum zero [] w e a = returns (omega arith)
  for_first-sum zero (x ∷ xs) w e a = absurd (omega arith)
  for_first-sum (suc n) [] w e a = absurd (omega arith)
  for_first-sum (suc n) (x ∷ xs) w e (p, a) =
      bind (step x w p)
        λ x' w1 q. bind (for_first-sum n xs w1 (omega arith) a) λ xs' w2 r. returns (omega arith)

module _ (env : Env) (f : Event → ℕ) where
  discard_dev_data-weigh :
      (o : Option I2cLinuxDevData) (w : World)
      → Returns
          (λ _ w'. weigh f w'.log ≡ dev_blocks f o + weigh f w.log)
          (discard_i2c_linux_bus_dev_data o env w)
  unfolding discard_i2c_linux_bus_dev_data
  discard_dev_data-weigh none w = returns (omega arith)
  discard_dev_data-weigh (some b) w = returns refl

  discard_bus_data-weigh :
      (o : Option I2cLinuxBusData) (w : World)
      → Returns
          (λ _ w'. weigh f w'.log ≡ bus_blocks f o + weigh f w.log)
          (discard_i2c_linux_bus_data o env w)
  unfolding discard_i2c_linux_bus_data
  discard_bus_data-weigh none w = returns (omega arith)
  discard_bus_data-weigh (some b) w = returns refl

  discard_one-driver :
      (bus : IoBus) (dev : IoDev) (w : World)
      → bus.drv_handle ≡ some i2c_linux
      → Returns
          (λ _ w'. weigh f w'.log ≡ dev_blocks f dev.dev_bus_data + weigh f w.log)
          (discard_one drivers bus dev env w)
  unfolding discard_one
  discard_one-driver bus dev w h =
      when_some-Returns _ _ h (bind (discard_dev_data-weigh dev.dev_bus_data w) λ _ w' e. returns e)

  discard_one-empty :
      (bus : IoBus) (dev : IoDev) (w : World)
      → bus.drv_handle ≡ none
      → HasNoBlock dev
      → Returns
          (λ _ w'. weigh f w'.log ≡ dev_blocks f dev.dev_bus_data + weigh f w.log)
          (discard_one drivers bus dev env w)
  unfolding discard_one
  discard_one-empty bus dev w h clear =
      when_some-none _ _ h (returns (omega (arith, ap (dev_blocks f) clear)))

  conf_deinit_bus-weigh :
      (bus : IoBus) (w : World)
      → CanDiscard bus
      → Returns
          (λ _ w'. weigh f w'.log ≡ held f bus + weigh f w.log)
          (conf_deinit_bus drivers bus env w)
  unfolding conf_deinit_bus discard_bus
  conf_deinit_bus-weigh bus w (by_driver h size) =
      bind
        (for_first-sum (λ _. Unit {0}) f (λ dev. dev_blocks f dev.dev_bus_data)
          (discard_one drivers bus) env (λ dev w' _. discard_one-driver bus dev w' h) max_io_devices
          bus.devices w size (All-any bus.devices))
        λ devices w1 e.
          when_some-Returns _ _ h
            (bind (discard_bus_data-weigh bus.bus_data w1) λ _ w2 e'. returns (omega arith))
  conf_deinit_bus-weigh bus w (empty h clear) =
      bind
        (for_first-sum HasNoBlock f (λ dev. dev_blocks f dev.dev_bus_data) (discard_one drivers bus)
          env (λ dev w' p. discard_one-empty bus dev w' h p) max_io_devices bus.devices w clear.size
          clear.no_dev_block)
        λ devices w1 e.
          when_some-none _ _ h (returns (omega (arith, ap (bus_blocks f) clear.no_bus_block)))

  -- On a configuration whose buses, all eight of the array, each have the I2C bus driver or no
  -- driver and no block, with arrays of the declared size: whatever the calls are weighed with,
  -- the calls of `conf_deinit` weigh what freeing every block that the configuration holds weighs.
  pub conf_deinit-weigh :
      (c : IoConfig) (w : World)
      → length c.busses ≡ max_busses
      → All CanDiscard c.busses
      → Returns
          (λ (rc, c') w'. (rc ≡ pos 0) × (weigh f w'.log ≡ sum (held f) c.busses + weigh f w.log))
          (conf_deinit drivers c env w)
  unfolding conf_deinit
  conf_deinit-weigh c w size can =
      bind
        (for_first-sum CanDiscard f (held f) (conf_deinit_bus drivers) env
          (λ bus w' p. conf_deinit_bus-weigh bus w' p) max_busses c.busses w size can)
        λ busses w1 e. returns (refl, e)
