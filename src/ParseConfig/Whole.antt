-- ===== src/ParseConfig/Whole.antt =====
-- src/parse_config.c: `parse_config` on a whole configuration file.
use mathlib.Core.Path.{subst}
use switcher_c.Base.{ℕ, suc, ◌+◌, ◌<◌, ◌≤◌, ◌≡◌, ◌∙◌, refl, sym, ap, arith, some, List, [], ◌∷◌}
use switcher_c.Base.Int.{pos, minus_one, pos_part, ◌≤ℤ◌}
use switcher_c.Base.Lists.{All, All-weaken, First, get_elem?, length}
use switcher_c.Base.Text.{Bytes}
use switcher_c.Config.{IsValid, BusIsValid, IoBus, IoConfig, max_busses, max_io_devices}
use switcher_c.IoCore.Init.{IsClearBus, IsClearBus-BusIsValid}
use switcher_c.ParseConfig.{parse_config, BusConfigs, handle_all}
use switcher_c.Tables.Prepared.{IsPreparedBus}
use switcher_c.Tables.{drivers}
use switcher_c.World.{Env, World}
use switcher_c.World.Returns.{Returns, returns, bind, weaken}
use switcher_c.ParseConfig.File.{
  BusFits, BusSection, DeviceSection, device_entries, all_device_entries, bus_entries, file_entries,
  DevicesFit, last_of, last_of_file, BussesFit, HasMemory,
}
use switcher_c.ParseConfig.Build.{Described, AtBus, handle_all-then, bus-AtBus}
use switcher_c.ParseConfig.Grow.{device-AtBus}

module _ (env : Env) (memory : HasMemory env) (orig : List IoBus)
    (clear : All IsClearBus orig) where
  devices-Described :
      (ds : List DeviceSection) (i j : ℕ) (last : Bytes) (u : BusConfigs) (w : World)
      → AtBus orig i j last u
      → j + length ds ≤ max_io_devices
      → DevicesFit last ds
      → Returns
          (λ u' w'. Described orig (suc i) (last_of last ds) u' × (w'.spi ≡ w.spi))
          (handle_all drivers u (all_device_entries ds) env w)
  unfolding handle_all
  devices-Described [] i j last u w a le fit = returns (a.described, refl)
  devices-Described (d ∷ ds) i j last u w a le (fits, fit) =
      handle_all-then (device_entries d) (all_device_entries ds) u env w
        (device-AtBus env memory orig i j last u w d a (omega arith) fits)
        λ u' w' (a', e).
          weaken (devices-Described ds i (suc j) d.section u' w' a' (omega arith) fit)
            λ u'' w'' (done, e'). (done, e' ∙ e)

  pub bus-Described :
      (b : BusSection) (n : ℕ) (last : Bytes) (u : BusConfigs) (w : World)
      → Described orig n last u
      → n < max_busses
      → BusFits last b
      → Returns
          (λ u' w'. Described orig (suc n) (last_of b.section b.devices) u' × (w'.spi ≡ w.spi))
          (handle_all drivers u (bus_entries b) env w)
  bus-Described b n last u w d lt fits =
      handle_all-then _ (all_device_entries b.devices) u env w
        (bus-AtBus env memory orig clear n last u w b.section b.file d lt fits.follows fits.is_bus
          fits.name_fits)
        λ u' w' (a, e).
          weaken
            (devices-Described b.devices n 0 b.section u' w' a (omega (arith, fits.device_count))
              fits.devices_fit)
            λ u'' w'' (done, e'). (done, e' ∙ e)

  pub busses-Described :
      (bs : List BusSection) (n : ℕ) (last : Bytes) (u : BusConfigs) (w : World)
      → Described orig n last u
      → n + length bs ≤ max_busses
      → BussesFit last bs
      → Returns
          (λ u' w'. Described orig (n + length bs) (last_of_file last bs) u' × (w'.spi ≡ w.spi))
          (handle_all drivers u (file_entries bs) env w)
  unfolding handle_all
  busses-Described [] n last u w d le fit =
      returns (subst (λ m. Described orig m last u) (omega arith) d, refl)
  busses-Described (b ∷ bs) n last u w d le (fits, fit) =
      handle_all-then (bus_entries b) (file_entries bs) u env w
        (bus-Described b n last u w d (omega arith) fits)
        λ u2 w2 (done, e).
          weaken
            (busses-Described bs (suc n) (last_of b.section b.devices) u2 w2 done (omega arith) fit)
            λ u3 w3 (all, e'). (
              subst (λ m. Described orig m (last_of_file (last_of b.section b.devices) bs) u3)
                  (omega arith) all,
              e' ∙ e,
            )

-- The user data before the first entry.
abbrev pub fresh : IoConfig → BusConfigs
fresh c = record {
  config = c;
  last_section = [];
  current_bus_id = minus_one;
  current_dev_id = minus_one;
}

pub fresh-Described :
    (c : IoConfig)
    → c.num_busses ≡ pos 0
    → length c.busses ≡ max_busses
    → All IsClearBus c.busses
    → Described c.busses 0 [] (fresh c)
fresh-Described c none_yet size clear = record {
  last_is = refl;
  next_bus = refl;
  count = none_yet;
  size = size;
  prepared = tt;
  valid = All-weaken IsClearBus BusIsValid c.busses IsClearBus-BusIsValid clear;
  others = λ k bus h e. e;
}

module _ (env : Env) (memory : HasMemory env) where
  -- On an empty configuration, with a file of up to eight I2C buses with up to 128 PCF8574 or
  -- MCP23017 devices each, whose sections are named as the handler expects them (each section
  -- differs from the one before it and is shorter than 128 bytes, the names of a bus's sections
  -- begin with `bus` and those of a device's with `device` and not with `bus`, device files have
  -- less than 32 bytes, drivers are known), and with memory for every block, `parse_config`
  -- returns 0 without undefined behaviour and keeps the SPI state. The configuration that it
  -- leaves is valid, counts the file's buses, and each of them is an I2C bus with data whose
  -- counted devices each have one of the two drivers and an address; the buses of the array
  -- behind them are as they were.
  pub parse_config-Described :
      (filename : Bytes) (bs : List BusSection) (c : IoConfig) (w : World)
      → c.num_busses ≡ pos 0
      → length c.busses ≡ max_busses
      → All IsClearBus c.busses
      → length bs ≤ max_busses
      → BussesFit [] bs
      → Returns
          (λ (rc, c') w'.
            (rc ≡ pos 0)
            × (c'.num_busses ≡ pos (length bs))
            × IsValid c'
            × First IsPreparedBus (pos_part c'.num_busses) c'.busses
            × (w'.spi ≡ w.spi)
            × ((k : ℕ) (bus : IoBus)
                → length bs ≤ k
                → get_elem? c'.busses k ≡ some bus
                → get_elem? c.busses k ≡ some bus))
          (parse_config drivers filename (some (file_entries bs)) c env w)
  unfolding parse_config
  parse_config-Described filename bs c w none_yet size clear le fit =
      bind
        (busses-Described env memory c.busses clear bs 0 [] _ w
          (fresh-Described c none_yet size clear) (omega arith) fit)
        λ u w' (d, e). returns (
          refl,
          d.count ∙ ap pos (omega arith),
          valid u d,
          prepared u d,
          e,
          λ k bus h at. d.others k bus (omega arith) at,
        )
    where
      valid :
          (u : BusConfigs)
          → Described c.busses (0 + length bs) (last_of_file [] bs) u
          → IsValid u.config
      valid u d = record {
        busses_length = d.size;
        busses_nonneg = subst (λ z. pos 0 ≤ℤ z) (sym d.count) (omega arith);
        busses_bound = subst (λ z. z ≤ℤ pos max_busses) (sym d.count) (omega arith);
        busses_valid = d.valid;
      }

      prepared :
          (u : BusConfigs)
          → Described c.busses (0 + length bs) (last_of_file [] bs) u
          → First IsPreparedBus (pos_part u.config.num_busses) u.config.busses
      prepared u d =
          subst (λ m. First IsPreparedBus m u.config.busses) (sym (ap pos_part d.count)) d.prepared
