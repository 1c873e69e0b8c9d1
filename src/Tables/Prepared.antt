-- ===== src/Tables/Prepared.antt =====
-- src/io.c: `io_init` on a bus as the configuration file describes it.
use mathlib.Core.Path.{subst}
use switcher_c.Base.{
  ℕ, ◌<◌, ◌≡◌, ◌∙◌, ◌≤◌, refl, sym, arith, List, Option, some, inl, inr, false, Bool-cases, lt→ltb,
}
use switcher_c.Base.Int.{ℤ, pos, negsuc, pos_part, eqb_ℤ, ltb_ℤ, ◌≤ℤ◌}
use switcher_c.Base.Lists.{All-any, First, First-get_elem?, First-weaken, length}
use switcher_c.Config.{
  IoBus, IoDev, BusIsValid, I2cLinuxBusData, I2cLinuxDevData, pcf8574, mcp23017, mcp23017_none,
  i2c_linux, i2c_dev_len, max_io_devices,
}
use switcher_c.I2cLinux.{i2c_linux_open}
use switcher_c.I2cLinux.Total.{IsWired}
use switcher_c.IoCore.Lifecycle.{when_some, init_one, open_one, io_init_bus}
use switcher_c.IoCore.Loop.{for_first-First}
use switcher_c.IoCore.Ready.{IsReadyBus}
use switcher_c.Mcp23017
use switcher_c.Tables.{drivers}
use switcher_c.Tables.OpenBus.{IsI2cDev, IsOpenBus}
use switcher_c.Tables.Ready.{ReadyFor, pcf8574_ready, mcp23017_ready, contract}
use switcher_c.World.{Object, Event, Log, Env, World, Spi, Io}
use switcher_c.World.Returns.{Returns, returns, bind, weaken, deref-Returns}

-- A device as the configuration file describes it: a driver for the I2C bus, and an address.
pub data IsPreparedDev (dev : IoDev) : Type 0 where
  pcf8574_prepared :
      dev.drv_handle ≡ some pcf8574
      → (block : I2cLinuxDevData) → dev.dev_bus_data ≡ some block
      → IsPreparedDev dev
  mcp23017_prepared :
      dev.drv_handle ≡ some mcp23017
      → (block : I2cLinuxDevData) → dev.dev_bus_data ≡ some block
      → IsPreparedDev dev

-- An I2C bus with a device file whose name fits, and prepared devices.
pub record IsPreparedBus (bus : IoBus) : Type 0 where
  pub driver : bus.drv_handle ≡ some i2c_linux
  pub block : I2cLinuxBusData
  pub has_block : bus.bus_data ≡ some block
  pub name_fits : length block.device < i2c_dev_len
  pub prepared_devices : First IsPreparedDev (pos_part bus.num_devices) bus.devices

-- There is memory for every MCP23017.
pub record Grants (env : Env) : Type 0 where
  pub granted : (l : Log) → eqb_ℤ (env.ret l (Event.malloc Object.mcp23017_object)) (pos 0) ≡ false

pub pos_part-le : (z : ℤ) (n : ℕ) → z ≤ℤ pos n → pos_part z ≤ n
pos_part-le (pos k) n h = omega arith
pos_part-le (negsuc k) n h = omega arith

pub when_some-Returns :
    {A B : Type 0} {P : B → World → Type 0} {o : Option A} {a : A} (f : A → Io B) (k : Io B)
    {env : Env} {w : World}
    → o ≡ some a
    → Returns P (f a env w)
    → Returns P (when_some o f k env w)
when_some-Returns {P = P} f k {env} {w} e r =
    subst (λ o. Returns P (when_some o f k env w)) (sym e) r

module _ (env : Env) (grants : Grants env) (s : Option Spi) where
  init_one-Ready :
      (bus : IoBus) {block : I2cLinuxBusData} (dev : IoDev) (w : World)
      → bus.bus_data ≡ some block
      → IsPreparedDev dev
      → w.spi ≡ s
      → Returns
          (λ dev' w'. (ReadyFor bus.bus_data dev' s × IsI2cDev dev') × (w'.spi ≡ s))
          (init_one drivers bus dev env w)
  unfolding init_one Mcp23017.init
  init_one-Ready bus {block} dev w hb (pcf8574_prepared h b hd) i =
      when_some-Returns _ _ h (returns ((pcf8574_ready h (wired b hd), inl h), i))
    where
      wired :
          (b : I2cLinuxDevData) → dev.dev_bus_data ≡ some b → IsWired bus.bus_data dev.dev_bus_data
      wired b hd = record { bus_block = block; dev_block = b; bus_has = hb; dev_has = hd }
  init_one-Ready bus {block} dev w hb (mcp23017_prepared h b hd) i = when_some-Returns _ _ h (
      rw (grants.granted w.log) (
        returns
          ((mcp23017_ready h (wired b hd) (record { io_state = mcp23017_none }) refl, inr h), i)))
    where
      wired :
          (b : I2cLinuxDevData) → dev.dev_bus_data ≡ some b → IsWired bus.bus_data dev.dev_bus_data
      wired b hd = record { bus_block = block; dev_block = b; bus_has = hb; dev_has = hd }

  open_one-Returns :
      (bus : IoBus) (w : World) (prepared : IsPreparedBus bus)
      → Returns
          (λ bus' w'.
            (block : I2cLinuxBusData) × (bus' ≡ record bus { bus_data = some block })
            × (w'.spi ≡ w.spi))
          (open_one drivers bus env w)
  unfolding open_one i2c_linux_open
  open_one-Returns bus w prepared =
      when_some-Returns _ _ prepared.driver
        (bind (opens bus w prepared) λ (rc, bus') w' p. returns p)
    where
      opens :
          (bus : IoBus) (w : World) (prepared : IsPreparedBus bus)
          → Returns
              (λ (rc, bus') w'.
                (block : I2cLinuxBusData) × (bus' ≡ record bus { bus_data = some block })
                × (w'.spi ≡ w.spi))
              (i2c_linux_open bus env w)
      opens bus w prepared = bind (deref-Returns env w prepared.has_block) λ block w' (e, same).
          rw (e, same)
            (rw (lt→ltb _ _ prepared.name_fits)
              (elim (Bool-cases
                (ltb_ℤ (env.ret w.log (Event.open_device prepared.block.device)) (pos 0))) [
                  | inl bad ↦ rw bad (returns (_, refl, refl))
                  | inr good ↦ rw good (returns (_, refl, refl))
                ]))

  pub io_init_bus-Ready :
      (bus : IoBus) (w : World)
      → IsPreparedBus bus
      → BusIsValid bus
      → w.spi ≡ s
      → Returns
          (λ bus' w'.
            (IsReadyBus drivers contract s bus' × IsOpenBus bus') × BusIsValid bus' × (w'.spi ≡ s))
          (io_init_bus drivers bus env w)
  unfolding io_init_bus
  io_init_bus-Ready bus w prepared valid i =
      bind (open_one-Returns bus w prepared) λ opened w1 (block, e, p). rw e (
        bind
          (for_first-First IsPreparedDev (λ dev. ReadyFor (some block) dev s × IsI2cDev dev)
            (λ _. Unit {0}) (λ w'. w'.spi ≡ s)
            (init_one drivers (record bus { bus_data = some block })) env
            (λ dev w' q _ j.
              weaken (init_one-Ready (record bus { bus_data = some block }) dev w' refl q j)
                λ dev' w'' (r, k). (r, tt, k))
            (pos_part bus.num_devices) bus.devices w1 (bound valid) prepared.prepared_devices
            (All-any bus.devices) (p ∙ i))
          λ devices w2 (l, f, _, k).
            returns ((ready block devices f, open_bus block devices l f), stays block devices l, k))
    where
      bound : BusIsValid bus → pos_part bus.num_devices ≤ length bus.devices
      bound v =
          omega
            (arith, v.devices_length, pos_part-le bus.num_devices max_io_devices v.devices_bound)

      ready :
          (block : I2cLinuxBusData) (devices : List IoDev)
          → First
              (λ dev. ReadyFor (some block) dev s × IsI2cDev dev)
              (pos_part bus.num_devices)
              devices
          → IsReadyBus drivers contract s (record bus { bus_data = some block; devices = devices })
      ready block devices f = record {
        dev_ready = λ j dev h at.
            (First-get_elem? (λ dev. ReadyFor (some block) dev s × IsI2cDev dev)
              (pos_part bus.num_devices) devices j f (omega (arith, valid.devices_nonneg)) at).0;
      }

      open_bus :
          (block : I2cLinuxBusData) (devices : List IoDev)
          → length devices ≡ length bus.devices
          → First
              (λ dev. ReadyFor (some block) dev s × IsI2cDev dev)
              (pos_part bus.num_devices)
              devices
          → IsOpenBus (record bus { bus_data = some block; devices = devices })
      open_bus block devices l f = record {
        driver = prepared.driver;
        block = block;
        has_block = refl;
        i2c_devices =
            First-weaken (λ dev. ReadyFor (some block) dev s × IsI2cDev dev) IsI2cDev
              (pos_part bus.num_devices) devices (λ dev p. p.1) f;
        bound = omega (arith, l, bound valid);
        size = l ∙ valid.devices_length;
      }

      stays :
          (block : I2cLinuxBusData) (devices : List IoDev)
          → length devices ≡ length bus.devices
          → BusIsValid (record bus { bus_data = some block; devices = devices })
      stays block devices l = record {
        devices_length = l ∙ valid.devices_length;
        devices_nonneg = valid.devices_nonneg;
        devices_bound = valid.devices_bound;
      }
