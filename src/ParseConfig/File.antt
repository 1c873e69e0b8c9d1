-- ===== src/ParseConfig/File.antt =====
-- src/parse_config.c: configuration files, as the sections of buses and devices.
use switcher_c.Base.{◌≤◌, ◌<◌, ◌≡◌, some, true, false, List, [], ◌∷◌, ◌++◌, ◌⊎◌}
use switcher_c.Base.Int.{pos, eqb_ℤ}
use switcher_c.Base.Lists.{length}
use switcher_c.Base.Text.{Bytes, text}
use switcher_c.Config.{DevDrv, pcf8574, mcp23017, i2c_dev_len, max_io_devices}
use switcher_c.Libc.{strncmp_eq}
use switcher_c.ParseConfig.Sections.{entry}
use switcher_c.ParseConfig.{Entry, driver_of, max_ini_entry_len}
use switcher_c.World.{Object, Event, Log, Env}

-- A device's section and a bus's, with the sections of its devices.
pub record DeviceSection : Type 0 where
  pub section : Bytes
  pub name : Bytes
  pub address : Bytes

pub record BusSection : Type 0 where
  pub section : Bytes
  pub file : Bytes
  pub devices : List DeviceSection

-- The entries of a device's section, and of a bus's with those of its devices.
abbrev pub device_entries : DeviceSection → List Entry
device_entries d =
    entry d.section (text "devdrv") d.name ∷ entry d.section (text "dev_parameter") d.address ∷ []

abbrev pub all_device_entries : List DeviceSection → List Entry
all_device_entries [] = []
all_device_entries (d ∷ ds) = device_entries d ++ all_device_entries ds

abbrev pub bus_entries : BusSection → List Entry
bus_entries b =
    (entry b.section (text "bus_type") (text "i2c")
      ∷ entry b.section (text "bus_parameter") b.file
      ∷ [])
    ++ all_device_entries b.devices

abbrev pub file_entries : List BusSection → List Entry
file_entries [] = []
file_entries (b ∷ bs) = bus_entries b ++ file_entries bs

-- The section is not the one before it, and shorter than the buffer for it.
abbrev pub Follows : Bytes → Bytes → Type 0
Follows last section =
    (strncmp_eq last section max_ini_entry_len ≡ false) × (length section < max_ini_entry_len)

-- A device's section behind the section `last`: its name begins with `device`, and its driver is one
-- of the two for the I2C bus.
pub record DeviceFits (last : Bytes) (d : DeviceSection) : Type 0 where
  pub follows : Follows last d.section
  pub no_bus : strncmp_eq d.section (text "bus") 3 ≡ false
  pub is_device : strncmp_eq d.section (text "device") 6 ≡ true
  pub driver : DevDrv
  pub known : driver_of d.name ≡ some driver
  pub on_i2c : (driver ≡ pcf8574) ⊎ (driver ≡ mcp23017)

abbrev pub DevicesFit : Bytes → List DeviceSection → Type 0
DevicesFit last [] = Unit {0}
DevicesFit last (d ∷ ds) = DeviceFits last d × DevicesFit d.section ds

-- The section that is the last of a bus.
abbrev pub last_of : Bytes → List DeviceSection → Bytes
last_of last [] = last
last_of last (d ∷ ds) = last_of d.section ds

pub record BusFits (last : Bytes) (b : BusSection) : Type 0 where
  pub follows : Follows last b.section
  pub is_bus : strncmp_eq b.section (text "bus") 3 ≡ true
  pub name_fits : length b.file < i2c_dev_len
  pub device_count : length b.devices ≤ max_io_devices
  pub devices_fit : DevicesFit b.section b.devices

-- The section that is the last of a file.
abbrev pub last_of_file : Bytes → List BusSection → Bytes
last_of_file last [] = last
last_of_file last (b ∷ bs) = last_of_file (last_of b.section b.devices) bs

abbrev pub BussesFit : Bytes → List BusSection → Type 0
BussesFit last [] = Unit {0}
BussesFit last (b ∷ bs) = BusFits last b × BussesFit (last_of b.section b.devices) bs

-- There is memory for the data of every bus and device.
pub record HasMemory (env : Env) : Type 0 where
  pub granted : (l : Log) (o : Object) → eqb_ℤ (env.ret l (Event.malloc o)) (pos 0) ≡ false
