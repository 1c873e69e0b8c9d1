-- ===== src/Driver.antt =====
-- The driver interface of include/io.h: the tables of function pointers `dev_drv` and `bus_drv`.
-- A function that changes the device or the bus behind its argument returns it.
use switcher_c.Base.{ℕ, Option}
use switcher_c.Base.Int.{ℤ}
use switcher_c.Base.Text.{Bytes}
use switcher_c.Config.{IoBus, IoDev, DevDrv, BusDrv, I2cLinuxBusData, I2cLinuxDevData}
use switcher_c.World.{Io, ErrorCb}

-- What a driver's `read` leaves: its result, `*value` and the device.
pub record ReadReply : Type 0 where
  pub rc : ℤ
  pub value : ℕ
  pub dev : IoDev

abbrev pub read_reply : ℤ → ℕ → IoDev → ReadReply
read_reply r v d = record { rc = r; value = v; dev = d }

-- A `read` is given what `*value` holds.
pub record DevOps : Type 0 where
  pub init : Option (IoBus → IoDev → Io (ℤ × IoDev))
  pub read : Option (IoBus → IoDev → ℕ → ErrorCb → Io ReadReply)
  pub write : Option (IoBus → IoDev → ℕ → ErrorCb → Io (ℤ × IoDev))
  pub deinit : Option (IoBus → IoDev → Io (ℤ × IoDev))

pub record BusOps : Type 0 where
  pub get_bus_data : Option (Bytes → Io (Option I2cLinuxBusData))
  pub get_bus_dev_data : Option (Bytes → Io (Option I2cLinuxDevData))
  pub discard_bus_data : Option (Option I2cLinuxBusData → Io (Unit {0}))
  pub discard_bus_dev_data : Option (Option I2cLinuxDevData → Io (Unit {0}))
  pub open_bus : Option (IoBus → Io (ℤ × IoBus))
  pub close_bus : Option (IoBus → Io ℤ)

-- The table behind each driver handle.
pub record Drivers : Type 0 where
  pub dev_ops : DevDrv → DevOps
  pub bus_ops : BusDrv → BusOps
