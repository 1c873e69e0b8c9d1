-- ===== src/ParseConfig/Board.antt =====
-- src/parse_config.c: the sections of a bus of type `piface` and of its device.
use switcher_c.Base.{ℕ, ◌+◌, ◌≡◌, refl, true, false, some, List, [], ◌∷◌}
use switcher_c.Base.Int.{pos, minus_one, suc_ℤ}
use switcher_c.Base.Lists.{get_elem?, set}
use switcher_c.Base.Text.{Bytes, text}
use switcher_c.Config.{IoBus, IoDev, piface}
use switcher_c.Libc.{strncmp_eq}
use switcher_c.ParseConfig.Devices.{devdrv_entry}
use switcher_c.ParseConfig.File.{Follows}
use switcher_c.ParseConfig.Sections.{entry, enter_bus}
use switcher_c.ParseConfig.{
  Entry, BusConfigs, driver_of, set_bus_type, kind_of, process_kind, process_entries,
  parser_handler, handle_all,
}
use switcher_c.Tables.{drivers}
use switcher_c.World.{Env, World, ok}

-- The sections of the bus and of its device.
abbrev pub board_entries : Bytes → Bytes → List Entry
board_entries section dev_section =
    entry section (text "bus_type") (text "piface")
    ∷ entry dev_section (text "devdrv") (text "piface")
    ∷ []

-- The names of the two sections, behind the section `last`.
pub record BoardFits (last section dev_section : Bytes) : Type 0 where
  pub follows : Follows last section
  pub is_bus : strncmp_eq section (text "bus") 3 ≡ true
  pub dev_follows : Follows section dev_section
  pub no_bus : strncmp_eq dev_section (text "bus") 3 ≡ false
  pub is_device : strncmp_eq dev_section (text "device") 6 ≡ true

-- The bus with its first device a PiFace.
abbrev pub board_bus : IoBus → IoDev → IoBus
board_bus bus dev = record bus {
  num_devices = suc_ℤ bus.num_devices;
  devices = set bus.devices 0 (record dev { drv_handle = some piface });
}

module _ (u : BusConfigs) (section dev_section : Bytes) (n : ℕ) (bus : IoBus) (dev : IoDev)
    (env : Env) (w : World) (fits : BoardFits u.last_section section dev_section)
    (next : suc_ℤ u.current_bus_id ≡ pos n) (at : get_elem? u.config.busses n ≡ some bus)
    (dev_at : get_elem? bus.devices 0 ≡ some dev) where
  abbrev in_bus : BusConfigs
  in_bus = record {
    config = record { num_busses = pos (n + 1); busses = u.config.busses };
    last_section = section;
    current_bus_id = pos n;
    current_dev_id = minus_one;
  }

  abbrev in_dev : BusConfigs
  in_dev = record {
    config = record {
      num_busses = pos (n + 1);
      busses = set u.config.busses n (board_bus bus dev);
    };
    last_section = dev_section;
    current_bus_id = pos n;
    current_dev_id = pos 0;
  }

  bus_entry :
      parser_handler drivers u (entry section (text "bus_type") (text "piface")) env w
      ≡ ok (pos 1, in_bus) w
  unfolding parser_handler process_entries process_kind kind_of strncmp_eq set_bus_type
  bus_entry =
      rw
        (enter_bus u section (record { other = fits.follows.0; fits = fits.follows.1 }) fits.is_bus)
        (rw next)

  pub handle_all-board :
      handle_all drivers u (board_entries section dev_section) env w ≡ ok in_dev w
  unfolding handle_all driver_of strncmp_eq
  handle_all-board = rw bus_entry (
      rw (
        devdrv_entry in_bus dev_section (text "piface") (text "") n 0 bus dev piface env w
          (record { other = fits.dev_follows.0; fits = fits.dev_follows.1 }) fits.no_bus
          fits.is_device refl refl at dev_at refl))
