-- ===== src/IoCore/Init.antt =====
-- src/io.c: `conf_init`, and configurations without a bus.
use mathlib.Core.Path.{subst}
use switcher_c.Base.{ℕ, suc, ◌≡◌, refl, sym, Option, none, arith}
use switcher_c.Base.Int.{pos, ◌≤ℤ◌}
use switcher_c.Base.Lists.{All, All-any, All-weaken, All-zip, length}
use switcher_c.Config.{BusDrv, IoDev, IoBus, IoConfig, BusIsValid, max_busses, max_io_devices}
use switcher_c.Driver.{Drivers}
use switcher_c.IoCore.{conf_init, init_bus, init_dev}
use switcher_c.IoCore.Contract.{Contract}
use switcher_c.IoCore.Loop.{for_first-All}
use switcher_c.IoCore.Ready.{Serves}
use switcher_c.World.{Env, World, Spi}
use switcher_c.World.Returns.{Returns, returns, bind, weaken}

-- The arrays have their declared sizes; the rest may be anything.
pub record HasArrays (c : IoConfig) : Type 0 where
  pub busses_length : length c.busses ≡ max_busses
  pub devices_length : All (λ bus. length bus.devices ≡ max_io_devices) c.busses

-- No device is counted, and no pointer is left.
pub record IsClearDev (dev : IoDev) : Type 0 where
  pub no_driver : dev.drv_handle ≡ none
  pub no_bus_block : dev.dev_bus_data ≡ none
  pub no_block : dev.dev_data ≡ none

pub record IsClearBus (bus : IoBus) : Type 0 where
  pub no_devices : bus.num_devices ≡ pos 0
  pub no_data : bus.bus_data ≡ none
  pub size : length bus.devices ≡ max_io_devices
  pub clear_devices : All IsClearDev bus.devices

init_bus-IsClearBus :
    (bus : IoBus) (env : Env) (w0 w : World)
    → length bus.devices ≡ max_io_devices
    → w ≡ w0
    → Returns
        (λ bus' w'. (IsClearBus bus' × (bus'.drv_handle ≡ bus.drv_handle)) × (w' ≡ w0))
        (init_bus bus env w)
unfolding init_bus
init_bus-IsClearBus bus env w0 w size same =
    bind
      (for_first-All (λ _. Unit {0}) IsClearDev (λ w'. w' ≡ w0) init_dev env
        (λ x w' _ e. clear_dev x w' e) max_io_devices bus.devices w size (All-any bus.devices) same)
      λ devices w' (l, a, e).
        returns
          ((record { no_devices = refl; no_data = refl; size = l; clear_devices = a }, refl), e)
  where
    clear_dev :
        (x : IoDev) (w' : World)
        → w' ≡ w0
        → Returns (λ x' w''. IsClearDev x' × (w'' ≡ w0)) (init_dev x env w')
    clear_dev x w' e =
        returns (record { no_driver = refl; no_bus_block = refl; no_block = refl }, e)

-- What holds of a bus's driver holds of it afterwards.
pub conf_init-drivers :
    (D : Option BusDrv → Type 0) (c : IoConfig) (env : Env) (w : World)
    → HasArrays c
    → All (λ bus. D bus.drv_handle) c.busses
    → Returns
        (λ (rc, c') w'.
          (rc ≡ pos 0)
          × (w' ≡ w)
          × (c'.num_busses ≡ pos 0)
          × (length c'.busses ≡ max_busses)
          × All (λ bus. IsClearBus bus × D bus.drv_handle) c'.busses)
        (conf_init c env w)
unfolding conf_init
conf_init-drivers D c env w arrays holds =
    bind
      (for_first-All (λ bus. (length bus.devices ≡ max_io_devices) × D bus.drv_handle)
        (λ bus. IsClearBus bus × D bus.drv_handle) (λ w'. w' ≡ w) init_bus env
        (λ bus w' (size, d) same.
          weaken (init_bus-IsClearBus bus env w w' size same)
            λ bus' w'' ((clear, e), same'). ((clear, subst D (sym e) d), same'))
        max_busses c.busses w arrays.busses_length
        (All-zip (λ bus. length bus.devices ≡ max_io_devices) (λ bus. D bus.drv_handle) c.busses
          arrays.devices_length holds)
        refl)
      λ busses w' (l, a, e). returns (refl, e, refl, l, a)

-- On a configuration whose arrays have their declared sizes, `conf_init` returns `EXIT_SUCCESS`
-- and makes no call. The configuration that it leaves counts no bus, and every bus of the array
-- counts no device and has neither data nor, in any device, a driver or data.
pub conf_init-IsClearBus :
    (c : IoConfig) (env : Env) (w : World)
    → HasArrays c
    → Returns
        (λ (rc, c') w'.
          (rc ≡ pos 0)
          × (w' ≡ w)
          × (c'.num_busses ≡ pos 0)
          × (length c'.busses ≡ max_busses)
          × All IsClearBus c'.busses)
        (conf_init c env w)
conf_init-IsClearBus c env w arrays =
    weaken (conf_init-drivers (λ _. Unit {0}) c env w arrays (All-any c.busses))
      λ (rc, c') w' (e, same, cnt, l, a). (
        e,
        same,
        cnt,
        l,
        All-weaken (λ bus. IsClearBus bus × Unit {0}) IsClearBus c'.busses (λ bus p. p.0) a,
      )

pub IsClearBus-BusIsValid : (bus : IoBus) → IsClearBus bus → BusIsValid bus
IsClearBus-BusIsValid bus clear = record {
  devices_length = clear.size;
  devices_nonneg = rw clear.no_devices (omega arith);
  devices_bound = rw clear.no_devices (omega arith);
}

-- On a configuration whose arrays have their declared sizes, `conf_init` leaves one that serves,
-- whatever the drivers and their contract are, and makes no call.
pub conf_init-Serves :
    (drivers : Drivers) (contract : Contract drivers) (s : Option Spi) (c : IoConfig) (env : Env)
    (w : World)
    → HasArrays c
    → Returns (λ (rc, c') w'. Serves drivers contract s c' × (w' ≡ w)) (conf_init c env w)
conf_init-Serves drivers contract s c env w arrays =
    weaken (conf_init-IsClearBus c env w arrays) λ (rc, c') w' (_, e, none_counted, l, a). (
      record {
        valid = record {
          busses_length = l;
          busses_nonneg = rw none_counted (omega arith);
          busses_bound = rw none_counted (omega arith);
          busses_valid = All-weaken IsClearBus BusIsValid c'.busses IsClearBus-BusIsValid a;
        };
        bus_ready = λ i bus h _. absurd (no_bus i (rw none_counted at h));
      },
      e,
    )
  where
    no_bus : (i : ℕ) → pos (suc i) ≤ℤ pos 0 → ⊥
    no_bus i h = omega arith
