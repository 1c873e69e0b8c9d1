-- ===== src/Tables/OpenBus.antt =====
-- src/io.c: I2C buses that can be closed again.
use switcher_c.Base.{◌≡◌, ◌⊎◌, ◌≤◌, some}
use switcher_c.Base.Int.{pos_part}
use switcher_c.Base.Lists.{First, length}
use switcher_c.Config.{IoBus, IoDev, pcf8574, mcp23017, i2c_linux, max_io_devices, I2cLinuxBusData}

abbrev pub IsI2cDev : IoDev → Type 0
IsI2cDev dev = (dev.drv_handle ≡ some pcf8574) ⊎ (dev.drv_handle ≡ some mcp23017)

-- An I2C bus with its data, and devices for it.
pub record IsOpenBus (bus : IoBus) : Type 0 where
  pub driver : bus.drv_handle ≡ some i2c_linux
  pub block : I2cLinuxBusData
  pub has_block : bus.bus_data ≡ some block
  pub i2c_devices : First IsI2cDev (pos_part bus.num_devices) bus.devices
  pub bound : pos_part bus.num_devices ≤ length bus.devices
  pub size : length bus.devices ≡ max_io_devices
