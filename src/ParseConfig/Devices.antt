-- ===== src/ParseConfig/Devices.antt =====
-- src/parse_config.c: the entries of a device's section.
use switcher_c.Base.{ℕ, ◌+◌, ◌≡◌, some, true, false, [], ◌∷◌}
use switcher_c.Base.Int.{pos, suc_ℤ, eqb_ℤ, to_unsigned, u8_mod}
use switcher_c.Base.Lists.{get_elem?, set, get_elem?-set_self}
use switcher_c.Base.Text.{Bytes, text}
use switcher_c.Config.{IoBus, IoConfig, IoDev, i2c_linux, DevDrv}
use switcher_c.I2cLinux.{get_i2c_linux_dev_data}
use switcher_c.Libc.{strncmp_eq, strtol}
use switcher_c.ParseConfig.Sections.{Opens, enter_device, stay, entry, set-set, length-lt}
use switcher_c.ParseConfig.{
  BusConfigs, driver_of, update_dev, count_device, set_driver, kind_of, set_dev_param, process_kind,
  process_entries, parser_handler, handle_all,
}
use switcher_c.Tables.{drivers}
use switcher_c.World.{Object, Event, Env, World, ok}

-- The device with the address that its parameter gives.
abbrev addressed : IoDev → Bytes → IoDev
addressed dev address = record dev {
  dev_bus_data = some (record { address = to_unsigned u8_mod (strtol address 16).number });
}

-- The device that its section describes.
abbrev pub described_dev : IoDev → DevDrv → Bytes → IoDev
described_dev dev drv address = addressed (record dev { drv_handle = some drv }) address

set_dev_param-i2c :
    (c : IoConfig) (i j : ℕ) (bus : IoBus) (dev : IoDev) (address : Bytes) (env : Env) (w : World)
    → get_elem? c.busses i ≡ some bus
    → get_elem? bus.devices j ≡ some dev
    → bus.drv_handle ≡ some i2c_linux
    → eqb_ℤ (env.ret w.log (Event.malloc Object.dev_data_object)) (pos 0) ≡ false
    → set_dev_param drivers c (pos i) (pos j) address env w
      ≡ ok
          (record c {
            busses =
                set c.busses i (record bus { devices = set bus.devices j (addressed dev address) });
          })
          (record w { log = Event.malloc Object.dev_data_object ∷ w.log })
unfolding set_dev_param update_dev get_i2c_linux_dev_data
set_dev_param-i2c c i j bus dev address env w at dev_at on_i2c granted =
    rw at (rw on_i2c (rw granted (rw dev_at)))

module _ (u : BusConfigs) (section name address : Bytes) (i j : ℕ) (bus : IoBus) (dev : IoDev)
    (drv : DevDrv) (env : Env) (w : World) (opens : Opens u section)
    (no_bus : strncmp_eq section (text "bus") 3 ≡ false)
    (is_device : strncmp_eq section (text "device") 6 ≡ true) (here : u.current_bus_id ≡ pos i)
    (next : suc_ℤ u.current_dev_id ≡ pos j) (at : get_elem? u.config.busses i ≡ some bus)
    (dev_at : get_elem? bus.devices j ≡ some dev) (known : driver_of name ≡ some drv) where
  -- The user data with the given device at the section's index, and one device more.
  abbrev with_dev : IoDev → IoBus
  with_dev x = record bus { num_devices = suc_ℤ bus.num_devices; devices = set bus.devices j x }

  abbrev at_dev : IoDev → BusConfigs
  at_dev x = record {
    config = record { num_busses = pos (i + 1); busses = set u.config.busses i (with_dev x) };
    last_section = section;
    current_bus_id = pos i;
    current_dev_id = pos j;
  }

  abbrev driven : IoDev
  driven = record dev { drv_handle = some drv }

  -- The entry that names the driver.
  pub devdrv_entry :
      parser_handler drivers u (entry section (text "devdrv") name) env w
      ≡ ok (pos 1, at_dev driven) w
  unfolding parser_handler process_entries process_kind kind_of strncmp_eq set_driver update_dev
      count_device
  devdrv_entry =
      let bus' = record bus { devices = set bus.devices j driven } in
      let found = get_elem?-set_self u.config.busses i bus' (length-lt u.config.busses i at) in
      rw (enter_device u section opens no_bus is_device) (
        rw (here, next, known)
          (rw (at, dev_at) (rw (found, set-set u.config.busses i bus' (with_dev driven)))))

  second_entry :
      bus.drv_handle ≡ some i2c_linux
      → eqb_ℤ (env.ret w.log (Event.malloc Object.dev_data_object)) (pos 0) ≡ false
      → parser_handler drivers (at_dev driven) (entry section (text "dev_parameter") address) env w
        ≡ ok
            (pos 1, at_dev (described_dev dev drv address))
            (record w { log = Event.malloc Object.dev_data_object ∷ w.log })
  unfolding parser_handler process_entries process_kind kind_of strncmp_eq
  second_entry on_i2c granted =
      let c = (at_dev driven).config in
      let b = with_dev driven in
      let found = get_elem?-set_self u.config.busses i b (length-lt u.config.busses i at) in
      let dev_found = get_elem?-set_self bus.devices j driven (length-lt bus.devices j dev_at) in
      rw (stay c section (pos i) (pos j) opens.fits) (
        rw (set_dev_param-i2c c i j b driven address env w found dev_found on_i2c granted) (
          rw (set-set bus.devices j driven (described_dev dev drv address))
            (rw (set-set u.config.busses i b (with_dev (described_dev dev drv address))))))

  -- The entries `devdrv`, with the name of a driver, and `dev_parameter` of a section that begins
  -- with `device`, differs from the last one and is shorter than 128 bytes, where the current bus
  -- is an I2C bus of the array, the next device index is that of an element of its array, and
  -- there is memory for the device's data: the handler gives that device the driver and the
  -- address that the parameter spells in hexadecimal, cut to a byte, counts one device more on
  -- the bus, and changes no other device.
  pub handle_all-device_section :
      bus.drv_handle ≡ some i2c_linux
      → eqb_ℤ (env.ret w.log (Event.malloc Object.dev_data_object)) (pos 0) ≡ false
      → handle_all drivers u
          (entry section (text "devdrv") name ∷ entry section (text "dev_parameter") address ∷ [])
          env
          w
        ≡ ok
            (at_dev (described_dev dev drv address))
            (record w { log = Event.malloc Object.dev_data_object ∷ w.log })
  unfolding handle_all
  handle_all-device_section on_i2c granted = rw devdrv_entry (rw (second_entry on_i2c granted))
