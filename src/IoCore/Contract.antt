-- ===== src/IoCore/Contract.antt =====
-- What `perform_io` relies on in a device driver: a contract for the `read` and `write` pointers of
-- include/io.h. IoCore/Serve is its client, and Tables/Ready its implementation.
use switcher_c.Base.{ℕ, ◌≡◌, Option, some}
use switcher_c.Base.Text.{Bytes}
use switcher_c.Config.{IoBus, IoDev, IoData, I2cLinuxBusData}
use switcher_c.Driver.{Drivers}
use switcher_c.IoCore.{dev_read, dev_write}
use switcher_c.IoCore.Wiring.{wired_dev}
use switcher_c.World.{Env, World, Spi, Io}
use switcher_c.World.Returns.{Returns}

-- The driver's shared state is as it was.
abbrev pub KeepsSpi : {A : Type 0} → World → A → World → Type 0
KeepsSpi w a w' = w'.spi ≡ w.spi

-- The callbacks return, and touch no driver's state.
abbrev pub IsQuiet : (Bytes → Io (Unit {0})) → Type 0
IsQuiet f = (msg : Bytes) (env : Env) (w : World) → Returns (KeepsSpi w) (f msg env w)

abbrev pub IsQuietSuccess : (IoData → Io (Unit {0})) → Type 0
IsQuietSuccess f = (d : IoData) (env : Env) (w : World) → Returns (KeepsSpi w) (f d env w)

-- `Ready` says when a device on a bus with the given data can be used. A use of such a device
-- returns, whatever the hardware answers, leaves it ready, and changes only its driver's data.
pub record Contract (drivers : Drivers) : Type 1 where
  pub Ready : Option I2cLinuxBusData → IoDev → Option Spi → Type 0
  pub read_returns :
      (bus : IoBus) (dev : IoDev) (value : ℕ) (f : Bytes → Io (Unit {0})) (env : Env) (w : World)
      → IsQuiet f
      → Ready bus.bus_data dev w.spi
      → Returns
          (λ r w'.
            (w'.spi ≡ w.spi) × Ready bus.bus_data r.dev w.spi × (wired_dev r.dev ≡ wired_dev dev))
          (dev_read drivers bus dev value (some f) env w)
  pub write_returns :
      (bus : IoBus) (dev : IoDev) (value : ℕ) (f : Bytes → Io (Unit {0})) (env : Env) (w : World)
      → IsQuiet f
      → Ready bus.bus_data dev w.spi
      → Returns
          (λ (rc, dev') w'.
            (w'.spi ≡ w.spi) × Ready bus.bus_data dev' w.spi × (wired_dev dev' ≡ wired_dev dev))
          (dev_write drivers bus dev value (some f) env w)
