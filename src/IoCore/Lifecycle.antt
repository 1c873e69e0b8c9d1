-- ===== src/IoCore/Lifecycle.antt =====
-- src/io.c: `io_init`, `io_deinit` and `conf_deinit`.
use switcher_c.Base.{Option, none, some}
use switcher_c.Base.Int.{ℤ, pos, pos_part}
use switcher_c.Config.{IoDev, IoBus, IoConfig, max_busses, max_io_devices}
use switcher_c.Driver.{Drivers}
use switcher_c.IoCore.{for_first}
use switcher_c.World.{Io, pure, ◌>>=◌, ◌>>◌}

-- A step that is taken only if the driver and its function are there.
abbrev pub when_some : {A B : Type 0} → Option A → (A → Io B) → Io B → Io B
when_some none step otherwise = otherwise
when_some (some f) step otherwise = step f

module _ (drivers : Drivers) where
  open drivers use {dev_ops, bus_ops}

  unfoldable pub init_one : IoBus → IoDev → Io IoDev
  init_one bus dev =
      when_some dev.drv_handle
        (λ h. when_some (dev_ops h).init (λ f. do (rc, dev') ← f bus dev; pure dev') (pure dev))
        (pure dev)

  unfoldable pub deinit_one : IoBus → IoDev → Io IoDev
  deinit_one bus dev =
      when_some dev.drv_handle
        (λ h. when_some (dev_ops h).deinit (λ f. do (rc, dev') ← f bus dev; pure dev') (pure dev))
        (pure dev)

  unfoldable pub open_one : IoBus → Io IoBus
  open_one bus =
      when_some bus.drv_handle
        (λ h. when_some (bus_ops h).open_bus (λ f. do (rc, bus') ← f bus; pure bus') (pure bus))
        (pure bus)

  unfoldable pub close_one : IoBus → Io (Unit {0})
  close_one bus =
      when_some bus.drv_handle
        (λ h. when_some (bus_ops h).close_bus (λ f. do f bus; pure tt) (pure tt)) (pure tt)

  -- A bus is opened before its devices are initialised.
  unfoldable pub io_init_bus : IoBus → Io IoBus
  unfolding for_first init_one open_one
  io_init_bus bus = do
    opened ← open_one bus
    devices ← for_first (pos_part opened.num_devices) (init_one opened) opened.devices
    pure (record opened { devices = devices })

  unfoldable pub io_init : IoConfig → Io (ℤ × IoConfig)
  unfolding io_init_bus
  io_init config = do
    busses ← for_first (pos_part config.num_busses) io_init_bus config.busses
    pure (pos 0, record config { busses = busses })

  -- The devices are shut down before their bus is closed.
  unfoldable pub io_deinit_bus : IoBus → Io IoBus
  unfolding for_first deinit_one close_one
  io_deinit_bus bus = do
    devices ← for_first (pos_part bus.num_devices) (deinit_one bus) bus.devices
    let bus' = record bus { devices = devices }
    close_one bus'
    pure bus'

  unfoldable pub io_deinit : IoConfig → Io (ℤ × IoConfig)
  unfolding io_deinit_bus
  io_deinit config = do
    busses ← for_first (pos_part config.num_busses) io_deinit_bus config.busses
    pure (pos 0, record config { busses = busses })

  unfoldable pub discard_one : IoBus → IoDev → Io IoDev
  discard_one bus dev =
      when_some bus.drv_handle
        (λ h.
          when_some (bus_ops h).discard_bus_dev_data
            (λ f. do f dev.dev_bus_data; pure (record dev { dev_bus_data = none })) (pure dev))
        (pure dev)

  unfoldable pub discard_bus : IoBus → Io IoBus
  discard_bus bus =
      when_some bus.drv_handle
        (λ h.
          when_some (bus_ops h).discard_bus_data
            (λ f. do f bus.bus_data; pure (record bus { bus_data = none })) (pure bus))
        (pure bus)

  -- All slots of the arrays, whatever the counters say.
  unfoldable pub conf_deinit_bus : IoBus → Io IoBus
  unfolding for_first discard_one discard_bus
  conf_deinit_bus bus = do
    devices ← for_first max_io_devices (discard_one bus) bus.devices
    discard_bus (record bus { devices = devices })

  unfoldable pub conf_deinit : IoConfig → Io (ℤ × IoConfig)
  unfolding conf_deinit_bus
  conf_deinit config = do
    busses ← for_first max_busses conf_deinit_bus config.busses
    pure (pos 0, record { num_busses = pos 0; busses = busses })
