-- ===== src/Tables/Ready.antt =====
-- The program's drivers, and the contract of IoCore/Contract.
use switcher_c.Base.{ℕ, ◌≡◌, refl, ap, Option, some}
use switcher_c.Base.Int.{ℤ}
use switcher_c.Base.Text.{Bytes}
use switcher_c.Config.{
  pcf8574, mcp23017, piface, IoBus, IoDev, I2cLinuxBusData, Mcp23017Data, Mcp23017IoState,
}
use switcher_c.I2cLinux.Total.{IsWired, write_byte-Returns, read_byte-Returns}
use switcher_c.IoCore.{dev_read, dev_write}
use switcher_c.IoCore.Wiring.{wired_dev}
use switcher_c.IoCore.Contract.{IsQuiet, Contract}
use switcher_c.Mcp23017.Total.{Leaves, read-Returns, write-Returns}
use switcher_c.Pcf8574
use switcher_c.Pfio.Total.{read_output-Returns, write_output-Returns}
use switcher_c.Piface
use switcher_c.Tables.{drivers}
use switcher_c.World.{Env, World, Spi, Io}
use switcher_c.World.Returns.{Returns, returns, bind, weaken, deref-Returns}

-- What each driver needs before its device can be used: the I2C drivers the blocks of bus and
-- device, the MCP23017 also its own block, and the PiFace the open SPI device.
pub data ReadyFor (b : Option I2cLinuxBusData) (dev : IoDev) (s : Option Spi) : Type 0 where
  pcf8574_ready : dev.drv_handle ≡ some pcf8574 → IsWired b dev.dev_bus_data → ReadyFor b dev s
  mcp23017_ready :
      dev.drv_handle ≡ some mcp23017
      → IsWired b dev.dev_bus_data
      → (dev_data : Mcp23017Data) → dev.dev_data ≡ some dev_data
      → ReadyFor b dev s
  piface_ready : dev.drv_handle ≡ some piface → (spi : Spi) → s ≡ some spi → ReadyFor b dev s

mcp23017-Ready :
    {b : Option I2cLinuxBusData} {s : Option Spi} {desired : Mcp23017IoState} {dev : IoDev} {rc : ℤ}
    {dev' : IoDev}
    → dev.drv_handle ≡ some mcp23017
    → IsWired b dev.dev_bus_data
    → Leaves desired dev rc dev'
    → ReadyFor b dev' s
mcp23017-Ready h wired left = rw left.has_data (mcp23017_ready h wired left.dev_data refl)

module _ (bus : IoBus) (dev : IoDev) (value : ℕ) (f : Bytes → Io (Unit {0})) (env : Env) (w : World)
    (quiet : IsQuiet f) where
  -- Each of the program's drivers meets the contract of a read: on a ready device (the I2C
  -- drivers with the data of bus and device, the MCP23017 also with its own, the PiFace with the
  -- SPI device open), with a callback that returns and leaves the SPI state alone, the read
  -- returns without undefined behaviour whatever the kernel answers, keeps the SPI state, leaves
  -- the device ready, and changes of the device only the driver's own data.
  pub read-Ready :
      ReadyFor bus.bus_data dev w.spi
      → Returns
          (λ r w'.
            (w'.spi ≡ w.spi)
            × ReadyFor bus.bus_data r.dev w.spi
            × (wired_dev r.dev ≡ wired_dev dev))
          (dev_read drivers bus dev value (some f) env w)
  unfolding dev_read Pcf8574.read Piface.read
  read-Ready (pcf8574_ready h wired) = bind (deref-Returns env w h) λ handle w' (e, same).
      rw (e, same)
        (bind (read_byte-Returns bus dev wired f quiet env w 0)
          λ r w'' p. returns (p, pcf8574_ready h wired, refl))
  read-Ready (mcp23017_ready h wired dev_data has) =
      bind (deref-Returns env w h) λ handle w' (e, same).
        rw (e, same)
          (weaken (read-Returns bus f quiet env dev wired has value w)
            λ r w'' (p, left). (p, mcp23017-Ready h wired left, ap wired_dev left.has_data))
  read-Ready (piface_ready h spi opened) = bind (deref-Returns env w h) λ handle w' (e, same).
      rw (e, same)
        (bind (read_output-Returns env w opened)
          λ v w'' p. returns (p, piface_ready h spi opened, refl))

  -- Each of the program's drivers meets the contract of a write: on a ready device (the I2C
  -- drivers with the data of bus and device, the MCP23017 also with its own, the PiFace with the
  -- SPI device open), with a callback that returns and leaves the SPI state alone, the write
  -- returns without undefined behaviour whatever the kernel answers, keeps the SPI state, leaves
  -- the device ready, and changes of the device only the driver's own data.
  pub write-Ready :
      ReadyFor bus.bus_data dev w.spi
      → Returns
          (λ (rc, dev') w'.
            (w'.spi ≡ w.spi) × ReadyFor bus.bus_data dev' w.spi × (wired_dev dev' ≡ wired_dev dev))
          (dev_write drivers bus dev value (some f) env w)
  unfolding dev_write Pcf8574.write Piface.write
  write-Ready (pcf8574_ready h wired) = bind (deref-Returns env w h) λ handle w' (e, same).
      rw (e, same)
        (bind (write_byte-Returns bus dev wired f quiet env w _)
          λ rc w'' p. returns (p, pcf8574_ready h wired, refl))
  write-Ready (mcp23017_ready h wired dev_data has) =
      bind (deref-Returns env w h) λ handle w' (e, same).
        rw (e, same)
          (weaken (write-Returns bus f quiet env dev wired has value w) λ (rc, dev') w'' (p, left).
            (p, mcp23017-Ready h wired left, ap wired_dev left.has_data))
  write-Ready (piface_ready h spi opened) = bind (deref-Returns env w h) λ handle w' (e, same).
      rw (e, same)
        (bind (write_output-Returns env w opened _)
          λ v w'' p. returns (p, piface_ready h spi opened, refl))

abbrev pub contract : Contract drivers
contract = record {
  Ready = ReadyFor;
  read_returns = λ bus dev value f env w. read-Ready bus dev value f env w;
  write_returns = λ bus dev value f env w. write-Ready bus dev value f env w;
}
