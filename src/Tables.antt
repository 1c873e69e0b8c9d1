-- ===== src/Tables.antt =====
-- The driver tables, the static `handle` of each driver's file.
pub mod Ready
pub mod EndToEnd
pub mod Board
pub mod PinMap
pub mod PinStart
pub mod OpenBus
pub mod Prepared
pub mod Start
pub mod Discard
pub mod Blocks
pub mod Frees
pub mod Makes
pub mod Shutdown
pub mod Stoppable
use switcher_c.Base.{none, some}
use switcher_c.Config.{DevDrv, pcf8574, mcp23017, piface, BusDrv, i2c_linux}
use switcher_c.Driver.{DevOps, BusOps, Drivers}
use switcher_c.I2cLinux.{
  get_i2c_linux_bus_data, get_i2c_linux_dev_data, discard_i2c_linux_bus_data,
  discard_i2c_linux_bus_dev_data, i2c_linux_open, i2c_linux_close,
}
use switcher_c.Mcp23017
use switcher_c.Pcf8574
use switcher_c.Piface

abbrev pub pcf8574_handle : DevOps
pcf8574_handle = record {
  init = none;
  read = some Pcf8574.read;
  write = some Pcf8574.write;
  deinit = none;
}

abbrev pub mcp23017_handle : DevOps
mcp23017_handle = record {
  init = some Mcp23017.init;
  read = some Mcp23017.read;
  write = some Mcp23017.write;
  deinit = some Mcp23017.deinit;
}

abbrev pub piface_handle : DevOps
piface_handle = record {
  init = some Piface.init;
  read = some Piface.read;
  write = some Piface.write;
  deinit = some Piface.deinit;
}

abbrev pub i2c_linux_handle : BusOps
i2c_linux_handle = record {
  get_bus_data = some get_i2c_linux_bus_data;
  get_bus_dev_data = some get_i2c_linux_dev_data;
  discard_bus_data = some discard_i2c_linux_bus_data;
  discard_bus_dev_data = some discard_i2c_linux_bus_dev_data;
  open_bus = some i2c_linux_open;
  close_bus = some i2c_linux_close;
}

abbrev pub dev_table : DevDrv → DevOps
dev_table pcf8574 = pcf8574_handle
dev_table mcp23017 = mcp23017_handle
dev_table piface = piface_handle

abbrev pub bus_table : BusDrv → BusOps
bus_table i2c_linux = i2c_linux_handle

abbrev pub drivers : Drivers
drivers = record { dev_ops = dev_table; bus_ops = bus_table }
