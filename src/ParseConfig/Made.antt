-- ===== src/ParseConfig/Made.antt =====
-- src/parse_config.c: the blocks that reading a file makes, section by section.
use switcher_c.Base.{ℕ, suc, ◌+◌, ◌<◌, ◌≤◌, ◌≡◌, refl, ap, arith, some, List, [], ◌∷◌}
use switcher_c.Base.Int.{pos}
use switcher_c.Base.Lists.{All, length}
use switcher_c.Base.Text.{Bytes}
use switcher_c.Config.{IoBus, IoConfig, max_busses, max_io_devices}
use switcher_c.IoCore.Init.{IsClearBus}
use switcher_c.ParseConfig.Build.{Described, AtBus, handle_all-then, bus-AtBus}
use switcher_c.ParseConfig.File.{
  BusFits, BusSection, DeviceSection, device_entries, all_device_entries, bus_entries, file_entries,
  DevicesFit, last_of, BussesFit, HasMemory,
}
use switcher_c.ParseConfig.Grow.{device-AtBus}
use switcher_c.ParseConfig.Whole.{fresh, fresh-Described, bus-Described}
use switcher_c.ParseConfig.{BusConfigs, handle_all, parse_config}
use switcher_c.Tables.Blocks.{dev_blocks, bus_blocks, held}
use switcher_c.World.Weight.{sum-zero, calls, weigh_calls, sum}
use switcher_c.Tables.{drivers}
use switcher_c.World.{Object, Event, Env, World}
use switcher_c.World.Returns.{Returns, returns, bind, weaken, Returns-both}
use switcher_c.ParseConfig.Held.{Grown, Spare, device-Grown, bus-Grown}

module _ (env : Env) (memory : HasMemory env) (g h : Object → ℕ) (orig : List IoBus)
    (clear : All IsClearBus orig) where
  devices-Grown :
      (ds : List DeviceSection) (i j : ℕ) (last : Bytes) (u : BusConfigs) (w : World)
      → AtBus orig i j last u
      → Spare i j u
      → j + length ds ≤ max_io_devices
      → DevicesFit last ds
      → Returns (Grown g h u w) (handle_all drivers u (all_device_entries ds) env w)
  unfolding handle_all
  devices-Grown [] i j last u w a spare le fit = returns refl
  devices-Grown (d ∷ ds) i j last u w a spare le (fits, fit) =
      handle_all-then (device_entries d) (all_device_entries ds) u env w
        (Returns-both (device-AtBus env memory orig i j last u w d a (omega arith) fits)
          (device-Grown env memory g h orig clear i j last u w d a spare (omega arith) fits))
        λ u' w' ((a', _), (g1, spare')).
          weaken (devices-Grown ds i (suc j) d.section u' w' a' spare' (omega arith) fit)
            λ u'' w'' g2. omega (arith, g1, g2)

  section-Grown :
      (b : BusSection) (n : ℕ) (last : Bytes) (u : BusConfigs) (w : World)
      → Described orig n last u
      → n < max_busses
      → BusFits last b
      → Returns (Grown g h u w) (handle_all drivers u (bus_entries b) env w)
  section-Grown b n last u w d lt fits =
      handle_all-then _ (all_device_entries b.devices) u env w
        (Returns-both
          (bus-AtBus env memory orig clear n last u w b.section b.file d lt fits.follows fits.is_bus
            fits.name_fits)
          (bus-Grown env memory g h orig clear n last u w b d lt fits))
        λ u' w' ((a, _), (g1, spare)).
          weaken
            (devices-Grown b.devices n 0 b.section u' w' a spare (omega (arith, fits.device_count))
              fits.devices_fit)
            λ u'' w'' g2. omega (arith, g1, g2)

  busses-Grown :
      (bs : List BusSection) (n : ℕ) (last : Bytes) (u : BusConfigs) (w : World)
      → Described orig n last u
      → n + length bs ≤ max_busses
      → BussesFit last bs
      → Returns (Grown g h u w) (handle_all drivers u (file_entries bs) env w)
  unfolding handle_all
  busses-Grown [] n last u w d le fit = returns refl
  busses-Grown (b ∷ bs) n last u w d le (fits, fit) =
      handle_all-then (bus_entries b) (file_entries bs) u env w
        (Returns-both (bus-Described env memory orig clear b n last u w d (omega arith) fits)
          (section-Grown b n last u w d (omega arith) fits))
        λ u2 w2 ((done, _), g1).
          weaken
            (busses-Grown bs (suc n) (last_of b.section b.devices) u2 w2 done (omega arith) fit)
            λ u3 w3 g2. omega (arith, g1, g2)

held-IsClearBus : (f : Event → ℕ) (bus : IoBus) → IsClearBus bus → held f bus ≡ 0
held-IsClearBus f bus clear = omega (
  arith,
  ap (bus_blocks f) clear.no_data,
  sum-zero (λ dev. dev_blocks f dev.dev_bus_data) bus.devices
      (λ dev p. ap (dev_blocks f) p.no_bus_block) clear.clear_devices,
)

-- On an empty configuration, with a file as for `parse_config-Described` and memory for every
-- block: whatever the kinds of blocks weigh, the calls of `malloc` that `parse_config` makes weigh
-- what the configuration holds behind it, and there is no call of `free`.
pub parse_config-held :
    (env : Env) (g h : Object → ℕ) (filename : Bytes) (bs : List BusSection) (c : IoConfig)
    (w : World)
    → HasMemory env
    → c.num_busses ≡ pos 0
    → length c.busses ≡ max_busses
    → All IsClearBus c.busses
    → length bs ≤ max_busses
    → BussesFit [] bs
    → Returns
        (λ (_, c') w'.
          weigh_calls g h w'.log ≡ sum (held (calls g g)) c'.busses + weigh_calls g h w.log)
        (parse_config drivers filename (some (file_entries bs)) c env w)
unfolding parse_config
parse_config-held env g h filename bs c w memory none_yet size clear le fit =
    bind
      (busses-Grown env memory g h c.busses clear bs 0 [] (fresh c) w
        (fresh-Described c none_yet size clear) (omega arith) fit)
      λ u w' grown. returns (
        omega
          (arith, grown, sum-zero (held (calls g g)) c.busses (held-IsClearBus (calls g g)) clear))
