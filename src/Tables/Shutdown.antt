-- ===== src/Tables/Shutdown.antt =====
-- src/main.c and src/io.c: the shutdown of a configuration of I2C buses.
use switcher_c.Base.{◌≡◌, ◌∙◌, ◌≤◌, Option-cases, inl, inr, refl, some}
use switcher_c.Base.Int.{pos_part}
use switcher_c.Base.Lists.{All, All-any, First, length}
use switcher_c.Config.{IoBus, IoDev, IoConfig, I2cLinuxBusData}
use switcher_c.I2cLinux.{i2c_linux_close}
use switcher_c.IoCore.Lifecycle.{deinit_one, close_one, io_deinit_bus, io_deinit}
use switcher_c.IoCore.Loop.{for_first-First}
use switcher_c.Mcp23017
use switcher_c.Tables.Discard.{CanDiscard, by_driver}
use switcher_c.Tables.OpenBus.{IsI2cDev, IsOpenBus}
use switcher_c.Tables.Prepared.{when_some-Returns}
use switcher_c.Tables.{drivers}
use switcher_c.World.{Env, World}
use switcher_c.World.Returns.{Returns, returns, bind, weaken, deref-Returns}

module _ (env : Env) where
  mcp23017_deinit-Returns :
      (bus : IoBus) (dev : IoDev) (w : World)
      → Returns (λ _ w'. w'.spi ≡ w.spi) (Mcp23017.deinit bus dev env w)
  unfolding Mcp23017.deinit
  mcp23017_deinit-Returns bus dev w = elim (Option-cases dev.dev_data) [
    | inl e ↦ rw e (returns refl)
    | inr (b, e) ↦ rw e (returns refl)
  ]

  deinit_one-Returns :
      (bus : IoBus) (dev : IoDev) (w : World)
      → IsI2cDev dev
      → Returns (λ _ w'. w'.spi ≡ w.spi) (deinit_one drivers bus dev env w)
  unfolding deinit_one
  deinit_one-Returns bus dev w (inl h) = when_some-Returns _ _ h (returns refl)
  deinit_one-Returns bus dev w (inr h) =
      when_some-Returns _ _ h (bind (mcp23017_deinit-Returns bus dev w) λ _ w' e. returns e)

  close-Returns :
      (bus : IoBus) (w : World) {block : I2cLinuxBusData}
      → bus.bus_data ≡ some block
      → Returns (λ _ w'. w'.spi ≡ w.spi) (i2c_linux_close bus env w)
  unfolding i2c_linux_close
  close-Returns bus w h = bind (deref-Returns env w h) λ b w' (e, same). rw same (returns refl)

  io_deinit_bus-Returns :
      (bus : IoBus) (w : World)
      → IsOpenBus bus
      → Returns (λ bus' w'. CanDiscard bus' × (w'.spi ≡ w.spi)) (io_deinit_bus drivers bus env w)
  unfolding io_deinit_bus close_one
  io_deinit_bus-Returns bus w opened =
      bind
        (for_first-First IsI2cDev (λ _. Unit {0}) (λ _. Unit {0}) (λ w'. w'.spi ≡ w.spi)
          (deinit_one drivers bus) env
          (λ dev w' p _ e. weaken (deinit_one-Returns bus dev w' p) λ dev' w'' e'. (tt, tt, e' ∙ e))
          (pos_part bus.num_devices) bus.devices w opened.bound opened.i2c_devices
          (All-any bus.devices) refl)
        λ devices w1 (l, _, _, e).
          bind
            (when_some-Returns _ _ opened.driver (
              bind (close-Returns (record bus { devices = devices }) w1 opened.has_block)
                λ _ w2 e'. returns e'))
            λ _ w2 e'. returns (by_driver opened.driver (l ∙ opened.size), e' ∙ e)

  pub io_deinit-CanDiscard :
      (c : IoConfig) (w : World)
      → pos_part c.num_busses ≤ length c.busses
      → First IsOpenBus (pos_part c.num_busses) c.busses
      → All CanDiscard c.busses
      → Returns
          (λ (_, c') w'.
            (length c'.busses ≡ length c.busses) × All CanDiscard c'.busses × (w'.spi ≡ w.spi))
          (io_deinit drivers c env w)
  unfolding io_deinit
  io_deinit-CanDiscard c w bound opened can =
      bind
        (for_first-First IsOpenBus (λ _. Unit {0}) CanDiscard (λ w'. w'.spi ≡ w.spi)
          (io_deinit_bus drivers) env
          (λ bus w' p _ e.
            weaken (io_deinit_bus-Returns bus w' p) λ bus' w'' (q, e'). (tt, q, e' ∙ e))
          (pos_part c.num_busses) c.busses w bound opened can refl)
        λ busses w1 (l, _, a, e). returns (l, a, e)
