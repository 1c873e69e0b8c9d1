-- ===== src/Tables/Discard.antt =====
-- src/io.c: `conf_deinit` and the blocks of the bus drivers.
use mathlib.Core.Path.{subst}
use switcher_c.Base.{◌≡◌, ◌∙◌, refl, sym, none, some, Option}
use switcher_c.Base.Int.{pos}
use switcher_c.Base.Lists.{All, All-any, length}
use switcher_c.Config.{
  IoBus, IoDev, IoConfig, i2c_linux, max_busses, max_io_devices, I2cLinuxBusData, I2cLinuxDevData,
}
use switcher_c.I2cLinux.{discard_i2c_linux_bus_data, discard_i2c_linux_bus_dev_data}
use switcher_c.IoCore.Lifecycle.{when_some, discard_one, discard_bus, conf_deinit_bus, conf_deinit}
use switcher_c.IoCore.Loop.{for_first-All}
use switcher_c.Tables.Prepared.{when_some-Returns}
use switcher_c.Tables.{drivers}
use switcher_c.World.{Env, World, Io}
use switcher_c.World.Returns.{Returns, returns, bind, weaken}

abbrev pub HasNoBlock : IoDev → Type 0
HasNoBlock dev = dev.dev_bus_data ≡ none

-- Neither the bus nor a device on it holds a block of the bus driver.
pub record HasNoBlocks (bus : IoBus) : Type 0 where
  pub size : length bus.devices ≡ max_io_devices
  pub no_bus_block : bus.bus_data ≡ none
  pub no_dev_block : All HasNoBlock bus.devices

-- A bus whose blocks can be given back: it has the driver that made them, or there are none.
pub data CanDiscard (bus : IoBus) : Type 0 where
  by_driver : bus.drv_handle ≡ some i2c_linux → length bus.devices ≡ max_io_devices → CanDiscard bus
  empty : bus.drv_handle ≡ none → HasNoBlocks bus → CanDiscard bus

pub when_some-none :
    {A B : Type 0} {P : B → World → Type 0} {o : Option A} (f : A → Io B) (k : Io B) {env : Env}
    {w : World}
    → o ≡ none
    → Returns P (k env w)
    → Returns P (when_some o f k env w)
when_some-none {P = P} f k {env} {w} e r = subst (λ o. Returns P (when_some o f k env w)) (sym e) r

module _ (env : Env) where
  abbrev Keeps : {A : Type 0} → (A → Type 0) → World → A → World → Type 0
  Keeps Q w a w' = Q a × (w'.spi ≡ w.spi)

  discard_dev_data-Returns :
      (o : Option I2cLinuxDevData) (w : World)
      → Returns (λ _ w'. w'.spi ≡ w.spi) (discard_i2c_linux_bus_dev_data o env w)
  unfolding discard_i2c_linux_bus_dev_data
  discard_dev_data-Returns none w = returns refl
  discard_dev_data-Returns (some b) w = returns refl

  discard_bus_data-Returns :
      (o : Option I2cLinuxBusData) (w : World)
      → Returns (λ _ w'. w'.spi ≡ w.spi) (discard_i2c_linux_bus_data o env w)
  unfolding discard_i2c_linux_bus_data
  discard_bus_data-Returns none w = returns refl
  discard_bus_data-Returns (some b) w = returns refl

  module _ (bus : IoBus) where
    discard_one-driver :
        (dev : IoDev) (w : World)
        → bus.drv_handle ≡ some i2c_linux
        → Returns (Keeps HasNoBlock w) (discard_one drivers bus dev env w)
    unfolding discard_one
    discard_one-driver dev w h =
        when_some-Returns _ _ h
          (bind (discard_dev_data-Returns dev.dev_bus_data w) λ _ w' e. returns (refl, e))

    discard_one-empty :
        (dev : IoDev) (w : World)
        → bus.drv_handle ≡ none
        → HasNoBlock dev
        → Returns (Keeps HasNoBlock w) (discard_one drivers bus dev env w)
    unfolding discard_one
    discard_one-empty dev w h clear = when_some-none _ _ h (returns (clear, refl))

    conf_deinit_bus-HasNoBlocks :
        (w : World)
        → CanDiscard bus
        → Returns (Keeps HasNoBlocks w) (conf_deinit_bus drivers bus env w)
    unfolding conf_deinit_bus discard_bus
    conf_deinit_bus-HasNoBlocks w (by_driver h size) =
        bind
          (for_first-All (λ _. Unit {0}) HasNoBlock (λ w'. w'.spi ≡ w.spi) (discard_one drivers bus)
            env (λ dev w' _ e. weaken (discard_one-driver dev w' h) λ dev' w'' (q, e'). (q, e' ∙ e))
            max_io_devices bus.devices w size (All-any bus.devices) refl)
          λ devices w1 (l, a, e). when_some-Returns _ _ h (
            bind (discard_bus_data-Returns bus.bus_data w1) λ _ w2 e'.
              returns (record { size = l; no_bus_block = refl; no_dev_block = a }, e' ∙ e))
    conf_deinit_bus-HasNoBlocks w (empty h clear) =
        bind
          (for_first-All HasNoBlock HasNoBlock (λ w'. w'.spi ≡ w.spi) (discard_one drivers bus) env
            (λ dev w' p e. weaken (discard_one-empty dev w' h p) λ dev' w'' (q, e'). (q, e' ∙ e))
            max_io_devices bus.devices w clear.size clear.no_dev_block refl)
          λ devices w1 (l, a, e).
            when_some-none _ _ h (
              returns (record { size = l; no_bus_block = clear.no_bus_block; no_dev_block = a }, e))

  -- On a configuration whose buses, all eight of the array, each have the I2C bus driver or no
  -- driver and no block, and arrays of the declared size, `conf_deinit` returns `EXIT_SUCCESS`
  -- without undefined behaviour and keeps the SPI state. It leaves no bus counted, and no bus and
  -- no device of the arrays with a block of a bus driver.
  pub conf_deinit-HasNoBlocks :
      (c : IoConfig) (w : World)
      → length c.busses ≡ max_busses
      → All CanDiscard c.busses
      → Returns
          (λ (rc, c') w'.
            (rc ≡ pos 0) × (c'.num_busses ≡ pos 0) × All HasNoBlocks c'.busses × (w'.spi ≡ w.spi))
          (conf_deinit drivers c env w)
  unfolding conf_deinit
  conf_deinit-HasNoBlocks c w size can =
      bind
        (for_first-All CanDiscard HasNoBlocks (λ w'. w'.spi ≡ w.spi) (conf_deinit_bus drivers) env
          (λ bus w' p e.
            weaken (conf_deinit_bus-HasNoBlocks bus w' p) λ bus' w'' (q, e'). (q, e' ∙ e))
          max_busses c.busses w size can refl)
        λ busses w1 (l, a, e). returns (refl, refl, a, e)
