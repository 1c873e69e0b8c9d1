-- ===== src/Tests/Start.antt =====
-- src/parse_config.c and io_init of src/io.c: the theorems on sections and on the start, applied.
use switcher_c.Base.{◌≡◌, refl, arith, none, some, [], ◌∷◌}
use switcher_c.Base.Int.{pos, minus_one}
use switcher_c.Base.Lists.{replicate}
use switcher_c.Base.Text.{text}
use switcher_c.Config.{IoBus, IoDev, i2c_linux, mcp23017}
use switcher_c.IoCore.Lifecycle.{io_init}
use switcher_c.IoCore.Ready.{Serves}
use switcher_c.Libc.{
  strtol, strncmp_eq, starts_digit, skip_prefix, take_sign, skip_space, digits_from, is_space,
  digit_value,
}
use switcher_c.ParseConfig.Devices.{handle_all-device_section}
use switcher_c.ParseConfig.Sections.{Opens, entry, handle_all-bus_section}
use switcher_c.ParseConfig.{BusConfigs, handle_all, driver_of}
use switcher_c.Tables.Ready.{contract}
use switcher_c.Tables.Prepared.{pcf8574_prepared, mcp23017_prepared, IsPreparedBus}
use switcher_c.Tables.Start.{io_init-Serves}
use switcher_c.Tables.{drivers}
use switcher_c.Tests.{
  cleared, rich_env, start, free_bus, free_dev, bus, bus_block, mcp_block, pcf_block, config,
  config-IsValid,
}
use switcher_c.World.{Object, Event, ok}
use switcher_c.World.Returns.{Returns}

abbrev at_start : BusConfigs
at_start = record {
  config = cleared;
  last_section = [];
  current_bus_id = minus_one;
  current_dev_id = minus_one;
}

abbrev i2c_bus : IoBus
i2c_bus = record free_bus {
  drv_handle = some i2c_linux;
  bus_data = some (record { device = text "/dev/i2c-1"; fh = minus_one });
}

abbrev in_bus : BusConfigs
in_bus = record {
  config = record { num_busses = pos 1; busses = i2c_bus ∷ replicate 7 free_bus };
  last_section = text "bus0";
  current_bus_id = pos 0;
  current_dev_id = minus_one;
}

bus-Opens : Opens at_start (text "bus0")
unfolding strncmp_eq
bus-Opens = record { other = refl; fits = omega arith }

handle_all-bus_section_example :
    handle_all drivers at_start
      (entry (text "bus0") (text "bus_type") (text "i2c")
        ∷ entry (text "bus0") (text "bus_parameter") (text "/dev/i2c-1")
        ∷ [])
      rich_env
      start
    ≡ ok in_bus (record start { log = Event.malloc Object.bus_data_object ∷ [] })
unfolding strncmp_eq
handle_all-bus_section_example =
    handle_all-bus_section at_start (text "bus0") (text "/dev/i2c-1") 0 free_bus rich_env start
      bus-Opens refl refl refl refl

abbrev dev_0 : IoDev
dev_0 = record { drv_handle = some mcp23017; dev_bus_data = some mcp_block; dev_data = none }

abbrev in_dev : BusConfigs
in_dev = record {
  config = record {
    num_busses = pos 1;
    busses =
        record i2c_bus { num_devices = pos 1; devices = dev_0 ∷ replicate 127 free_dev }
        ∷ replicate 7 free_bus;
  };
  last_section = text "device0";
  current_bus_id = pos 0;
  current_dev_id = pos 0;
}

device-Opens : Opens in_bus (text "device0")
unfolding strncmp_eq
device-Opens = record { other = refl; fits = omega arith }

handle_all-device_section_example :
    handle_all drivers in_bus
      (entry (text "device0") (text "devdrv") (text "mcp23017")
        ∷ entry (text "device0") (text "dev_parameter") (text "0x20")
        ∷ [])
      rich_env
      start
    ≡ ok in_dev (record start { log = Event.malloc Object.dev_data_object ∷ [] })
unfolding strncmp_eq driver_of strtol starts_digit skip_prefix take_sign skip_space digits_from
    is_space digit_value
handle_all-device_section_example =
    handle_all-device_section in_bus (text "device0") (text "mcp23017") (text "0x20") 0 0 i2c_bus
      free_dev mcp23017 rich_env start device-Opens refl refl refl refl refl refl refl refl refl

pub bus-IsPreparedBus : IsPreparedBus bus
bus-IsPreparedBus = record {
  driver = refl;
  block = bus_block;
  has_block = refl;
  name_fits = omega arith;
  prepared_devices =
      (mcp23017_prepared refl mcp_block refl, (pcf8574_prepared refl pcf_block refl, tt));
}

io_init-Serves_example :
    Returns
      (λ (rc, c) w. (rc ≡ pos 0) × Serves drivers contract none c × (w.spi ≡ none))
      (io_init drivers config rich_env start)
io_init-Serves_example =
    io_init-Serves rich_env config start (record { granted = λ l. refl }) config-IsValid
      (bus-IsPreparedBus, tt)
