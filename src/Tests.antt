-- ===== src/Tests.antt =====
-- A configuration, an environment and requests on which the theorems are applied. The bus is
-- `/dev/i2c-1` with an MCP23017 at 0x20, and a PCF8574 at 0x38 behind it.
mod Io
mod Device
mod Pins
mod Server
mod Start
pub mod Life
mod Process
mod Overflow
use mathlib.Core.Path.{subst}
use switcher_c.Base.{ℕ, zero, suc, ◌≡◌, refl, ap, arith, Option, none, some, [], ◌∷◌}
use switcher_c.Base.Int.{ℤ, pos, negsuc, ◌≤ℤ◌}
use switcher_c.Base.Lists.{some-inj, replicate, All, get_elem?}
use switcher_c.Base.Text.{text}
use switcher_c.Config.{
  DevDrv, mcp23017, pcf8574, i2c_linux, mcp23017_none, IoDev, IoBus, IoConfig, IoData, IsValid,
  BusIsValid, I2cLinuxBusData, I2cLinuxDevData, Mcp23017Data,
}
use switcher_c.I2cLinux.Total.{IsWired}
use switcher_c.IoCore.Ready.{IsReadyBus, Serves}
use switcher_c.IoCore.Requests.{NamesBus, NamesDev}
use switcher_c.Tables.{drivers}
use switcher_c.Tables.Ready.{ReadyFor, mcp23017_ready, pcf8574_ready, contract}
use switcher_c.World.{Event, Env, World}

-- A read answers 0x81, and every other call 0, which is success for all but `malloc`.
abbrev answer : Event → ℤ
answer (Event.smbus_read_byte _) = pos 0x81
answer (Event.smbus_read_byte_data _ _) = pos 0x81
answer _ = pos 0

abbrev pub env : Env
env = record { ret = λ _ e. answer e; out = λ _ _. 0; strerror = λ _. [] }

-- Every call answers 1, so that there is memory.
abbrev pub rich_env : Env
rich_env = record env { ret = λ _ _. pos 1 }

abbrev pub start : World
start = record { log = []; spi = none; buf = [] }

abbrev pub free_dev : IoDev
free_dev = record { drv_handle = none; dev_bus_data = none; dev_data = none }

abbrev pub bus_block : I2cLinuxBusData
bus_block = record { device = text "/dev/i2c-1"; fh = pos 3 }

abbrev pub mcp_block : I2cLinuxDevData
mcp_block = record { address = 0x20 }

abbrev pub pcf_block : I2cLinuxDevData
pcf_block = record { address = 0x38 }

abbrev pub mcp_data : Mcp23017Data
mcp_data = record { io_state = mcp23017_none }

abbrev pub mcp_dev : IoDev
mcp_dev = record {
  drv_handle = some mcp23017;
  dev_bus_data = some mcp_block;
  dev_data = some mcp_data;
}

abbrev pub pcf_dev : IoDev
pcf_dev = record { drv_handle = some pcf8574; dev_bus_data = some pcf_block; dev_data = none }

abbrev pub bus : IoBus
bus = record {
  num_devices = pos 2;
  devices = mcp_dev ∷ pcf_dev ∷ replicate 126 free_dev;
  drv_handle = some i2c_linux;
  bus_data = some bus_block;
}

abbrev pub free_bus : IoBus
free_bus = record {
  num_devices = pos 0;
  devices = replicate 128 free_dev;
  drv_handle = none;
  bus_data = none;
}

abbrev pub cleared : IoConfig
cleared = record { num_busses = pos 0; busses = replicate 8 free_bus }

abbrev pub config : IoConfig
config = record { num_busses = pos 1; busses = bus ∷ replicate 7 free_bus }

abbrev pub mcp_wired : IsWired bus.bus_data mcp_dev.dev_bus_data
mcp_wired = record { bus_block = bus_block; dev_block = mcp_block; bus_has = refl; dev_has = refl }

abbrev pub pcf_wired : IsWired bus.bus_data pcf_dev.dev_bus_data
pcf_wired = record { bus_block = bus_block; dev_block = pcf_block; bus_has = refl; dev_has = refl }

pub bus-BusIsValid : BusIsValid bus
bus-BusIsValid = record {
  devices_length = refl;
  devices_nonneg = omega arith;
  devices_bound = omega arith;
}

free_bus-BusIsValid : BusIsValid free_bus
free_bus-BusIsValid = record {
  devices_length = refl;
  devices_nonneg = omega arith;
  devices_bound = omega arith;
}

All-free : (n : ℕ) → All BusIsValid (replicate n free_bus)
All-free zero = tt
All-free (suc n) = (free_bus-BusIsValid, All-free n)

pub config-IsValid : IsValid config
config-IsValid = record {
  busses_length = refl;
  busses_nonneg = omega arith;
  busses_bound = omega arith;
  busses_valid = (bus-BusIsValid, All-free 7);
}

bus-IsReadyBus : IsReadyBus drivers contract none bus
bus-IsReadyBus = record { dev_ready = at }
  where
    at :
        (j : ℕ) (dev : IoDev)
        → pos (suc j) ≤ℤ pos 2
        → get_elem? bus.devices j ≡ some dev
        → ReadyFor bus.bus_data dev none
    at zero dev h e =
        subst (λ x. ReadyFor bus.bus_data x none) (some-inj e)
          (mcp23017_ready refl mcp_wired mcp_data refl)
    at (suc zero) dev h e =
        subst (λ x. ReadyFor bus.bus_data x none) (some-inj e) (pcf8574_ready refl pcf_wired)
    at (suc (suc j)) dev h e = absurd (omega arith)

pub config-Serves : Serves drivers contract none config
config-Serves = record { valid = config-IsValid; bus_ready = at }
  where
    at :
        (i : ℕ) (b : IoBus)
        → pos (suc i) ≤ℤ pos 1
        → get_elem? config.busses i ≡ some b
        → IsReadyBus drivers contract none b
    at zero b h e = subst (IsReadyBus drivers contract none) (some-inj e) bus-IsReadyBus
    at (suc i) b h e = absurd (omega arith)

-- Digit 5 of the MCP23017 is to be set.
abbrev pub set_pin : IoData
set_pin = record { idx_bus = pos 0; idx_dev = pos 0; idx_sub_dev = pos 5; value = 1 }

abbrev pub set_all : IoData
set_all = record set_pin { idx_sub_dev = negsuc 0; value = 0xA5 }

abbrev pub far_pin : IoData
far_pin = record set_pin { idx_sub_dev = pos 40 }

pub names_bus : (k : ℤ) → NamesBus config (record set_pin { idx_sub_dev = k }) 0 bus
names_bus k = record { bus_index = refl; bus_bound = omega arith; bus_at = refl }

pub names_dev : (k : ℤ) → NamesDev (record set_pin { idx_sub_dev = k }) bus 0 mcp_dev
names_dev k = record { dev_index = refl; dev_bound = omega arith; dev_at = refl }
