-- ===== src/Config.antt =====
-- The data of include/io.h, include/io_fwd.h and include/io_i2c_linux.h. A `void*` field is the
-- block that it owns, or `none` for NULL; each block has one owner. A pointer to a driver's table
-- names the driver.
use switcher_c.Base.{ℕ, ◌≡◌, Option, none, List}
use switcher_c.Base.Int.{ℤ, pos, negsuc, minus_one, ◌≤ℤ◌}
use switcher_c.Base.Lists.{length, get_elem?, set, All}
use switcher_c.Base.Text.{Bytes}

abbrev pub max_busses : ℕ
max_busses = 8

abbrev pub max_io_devices : ℕ
max_io_devices = 128

abbrev pub max_param_len : ℕ
max_param_len = 32

abbrev pub i2c_dev_len : ℕ
i2c_dev_len = 32

abbrev pub idx_invalid : ℤ
idx_invalid = minus_one

pub data IoCmd : Type 0 where
  cmd_none cmd_write cmd_read : IoCmd

-- The tables that `get_pcf8574_drv`, `get_mcp23017_drv` and `get_piface_drv` return.
pub data DevDrv : Type 0 where
  pcf8574 mcp23017 piface : DevDrv

-- The one table that `get_i2c_linux_drv` returns.
pub data BusDrv : Type 0 where
  i2c_linux : BusDrv

pub record I2cLinuxBusData : Type 0 where
  pub device : Bytes
  pub fh : ℤ

pub record I2cLinuxDevData : Type 0 where
  pub address : ℕ

pub data Mcp23017IoState : Type 0 where
  mcp23017_none mcp23017_read mcp23017_write : Mcp23017IoState

pub record Mcp23017Data : Type 0 where
  pub io_state : Mcp23017IoState

pub record IoDev : Type 0 where
  pub drv_handle : Option DevDrv
  pub dev_bus_data : Option I2cLinuxDevData
  pub dev_data : Option Mcp23017Data

pub record IoBus : Type 0 where
  pub num_devices : ℤ
  pub devices : List IoDev
  pub drv_handle : Option BusDrv
  pub bus_data : Option I2cLinuxBusData

pub record IoConfig : Type 0 where
  pub num_busses : ℤ
  pub busses : List IoBus

pub record IoData : Type 0 where
  pub idx_bus : ℤ
  pub idx_dev : ℤ
  pub idx_sub_dev : ℤ
  pub value : ℕ

-- `INIT_IO_DATA`.
unfoldable pub init_io_data : IoData
init_io_data = record {
  idx_bus = idx_invalid;
  idx_dev = idx_invalid;
  idx_sub_dev = idx_invalid;
  value = 0;
}

-- `array + i`, used: `none` outside the array.
abbrev pub elem_at : {A : Type 0} → List A → ℤ → Option A
elem_at xs (pos n) = get_elem? xs n
elem_at xs (negsuc n) = none

abbrev pub set_at : {A : Type 0} → List A → ℤ → A → List A
set_at xs (pos n) a = set xs n a
set_at xs (negsuc n) a = xs

-- The arrays have their declared sizes and the counters stay inside them.
pub record BusIsValid (b : IoBus) : Type 0 where
  pub devices_length : length b.devices ≡ max_io_devices
  pub devices_nonneg : pos 0 ≤ℤ b.num_devices
  pub devices_bound : b.num_devices ≤ℤ pos max_io_devices

pub record IsValid (c : IoConfig) : Type 0 where
  pub busses_length : length c.busses ≡ max_busses
  pub busses_nonneg : pos 0 ≤ℤ c.num_busses
  pub busses_bound : c.num_busses ≤ℤ pos max_busses
  pub busses_valid : All BusIsValid c.busses
