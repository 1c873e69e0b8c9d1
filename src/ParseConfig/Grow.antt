-- ===== src/ParseConfig/Grow.antt =====
-- src/parse_config.c: the step over a device's entries.
use mathlib.Core.Path.{subst}
use switcher_c.Base.{ℕ, suc, ◌+◌, ◌<◌, ◌≡◌, ◌∙◌, refl, sym, ap, arith, some, List, ◌⊎◌, inl, inr}
use switcher_c.Base.Int.{pos, suc_ℤ, pos_part, ◌≤ℤ◌}
use switcher_c.Base.Lists.{
  First, First-set, First-set_next, First-get_elem?, All-set, All-get_elem?, set, length-set,
  get_elem?-set_self, get_elem?-set_ne, get_elem?-lt,
}
use switcher_c.Base.Text.{Bytes}
use switcher_c.Config.{BusIsValid, IoBus, IoDev, pcf8574, mcp23017, max_io_devices}
use switcher_c.ParseConfig.Devices.{described_dev, handle_all-device_section}
use switcher_c.ParseConfig.Sections.{Opens, length-lt}
use switcher_c.ParseConfig.{BusConfigs, handle_all}
use switcher_c.Tables.Prepared.{IsPreparedDev, pcf8574_prepared, mcp23017_prepared, IsPreparedBus}
use switcher_c.Tables.{drivers}
use switcher_c.World.{Object, Env, World}
use switcher_c.World.Returns.{Returns, Returns-of_eq}
use switcher_c.ParseConfig.File.{DeviceSection, device_entries, DeviceFits, HasMemory}
use switcher_c.ParseConfig.Build.{AtBus}

module _ (env : Env) (memory : HasMemory env) (orig : List IoBus) where
  pub device-AtBus :
      (i j : ℕ) (last : Bytes) (u : BusConfigs) (w : World) (d : DeviceSection)
      → AtBus orig i j last u
      → j < max_io_devices
      → DeviceFits last d
      → Returns
          (λ u' w'. AtBus orig i (suc j) d.section u' × (w'.spi ≡ w.spi))
          (handle_all drivers u (device_entries d) env w)
  device-AtBus i j last u w d a lt fits =
      let (dev, dev_at) = get_elem?-lt a.bus.devices j (omega (arith, valid_bus.devices_length)) in
      let opens : Opens u d.section = record {
        other = rw a.described.last_is fits.follows.0;
        fits = fits.follows.1;
      } in
      Returns-of_eq
        (handle_all-device_section u d.section d.name d.address i j a.bus dev fits.driver env w
          opens fits.no_bus fits.is_device a.here a.next_dev a.at dev_at fits.known ready_bus.driver
          (memory.granted w.log Object.dev_data_object))
        (state (described dev) (ready_dev dev fits.on_i2c), refl)
    where
      busses : List IoBus
      busses = u.config.busses

      valid_bus : BusIsValid a.bus
      valid_bus = All-get_elem? BusIsValid busses i a.described.valid a.at

      ready_bus : IsPreparedBus a.bus
      ready_bus =
          First-get_elem? IsPreparedBus (suc i) busses i a.described.prepared (omega arith) a.at

      described : IoDev → IoDev
      described dev = described_dev dev fits.driver d.address

      ready_dev :
          (dev : IoDev)
          → (fits.driver ≡ pcf8574) ⊎ (fits.driver ≡ mcp23017)
          → IsPreparedDev (described dev)
      ready_dev dev (inl e) = pcf8574_prepared (ap some e) _ refl
      ready_dev dev (inr e) = mcp23017_prepared (ap some e) _ refl

      state :
          (dev : IoDev)
          → IsPreparedDev dev
          → AtBus orig i (suc j) d.section (record {
            config = record {
              num_busses = pos (i + 1);
              busses = set busses i (record a.bus {
                num_devices = suc_ℤ a.bus.num_devices;
                devices = set a.bus.devices j dev;
              });
            };
            last_section = d.section;
            current_bus_id = pos i;
            current_dev_id = pos j;
          })
      state dev ready =
          let bus' = record a.bus {
            num_devices = suc_ℤ a.bus.num_devices;
            devices = set a.bus.devices j dev;
          } in
          let more : suc_ℤ a.bus.num_devices ≡ pos (suc j) =
            ap suc_ℤ a.dev_count ∙ ap pos (omega arith) in
          let ready' : IsPreparedBus bus' = record {
            driver = ready_bus.driver;
            block = ready_bus.block;
            has_block = ready_bus.has_block;
            name_fits = ready_bus.name_fits;
            prepared_devices =
                subst (λ m. First IsPreparedDev m (set a.bus.devices j dev))
                  (sym (ap pos_part more))
                  (First-set_next IsPreparedDev j a.bus.devices dev
                    (subst (λ m. First IsPreparedDev m a.bus.devices) (ap pos_part a.dev_count)
                      ready_bus.prepared_devices)
                    ready);
          } in
          let valid' : BusIsValid bus' = record {
            devices_length = length-set a.bus.devices j dev ∙ valid_bus.devices_length;
            devices_nonneg = subst (λ z. pos 0 ≤ℤ z) (sym more) (omega arith);
            devices_bound = subst (λ z. z ≤ℤ pos max_io_devices) (sym more) (omega arith);
          } in
          record {
            described = record {
              last_is = refl;
              next_bus = ap pos (omega arith);
              count = ap pos (omega arith);
              size = length-set busses i bus' ∙ a.described.size;
              prepared = First-set IsPreparedBus (suc i) busses i bus' a.described.prepared ready';
              valid = All-set BusIsValid busses i bus' a.described.valid valid';
              others = λ k b h e.
                  a.described.others k b h
                    (sym (get_elem?-set_ne busses i k bus' (omega arith)) ∙ e);
            };
            here = refl;
            next_dev = ap pos (omega arith);
            bus = bus';
            at = get_elem?-set_self busses i bus' (length-lt busses i a.at);
            dev_count = more;
          }
