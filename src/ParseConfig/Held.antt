-- ===== src/ParseConfig/Held.antt =====
-- src/parse_config.c: the blocks that reading a file makes, and where the configuration holds them.
use switcher_c.Base.{
  ℕ, zero, suc, ◌+◌, ◌<◌, ◌≤◌, ◌≡◌, ◌∙◌, sym, ap, arith, none, some, List, [], ◌∷◌,
}
use switcher_c.Base.Int.{suc_ℤ}
use switcher_c.Base.Lists.{
  All, All-get_elem?, get_elem?, get_elem?-lt, get_elem?-set_self, get_elem?-set_ne, set, some-inj,
  First-get_elem?,
}
use switcher_c.Base.Text.{Bytes, text}
use switcher_c.Config.{IoBus, IoDev, BusIsValid, max_busses, max_io_devices}
use switcher_c.IoCore.Init.{IsClearBus, IsClearDev}
use switcher_c.ParseConfig.Build.{Described, AtBus}
use switcher_c.ParseConfig.Devices.{described_dev, handle_all-device_section}
use switcher_c.ParseConfig.File.{
  BusFits, BusSection, DeviceSection, DeviceFits, device_entries, HasMemory,
}
use switcher_c.ParseConfig.Sections.{Opens, entry, described_bus, handle_all-bus_section, length-lt}
use switcher_c.ParseConfig.{BusConfigs, handle_all}
use switcher_c.Tables.Blocks.{dev_blocks, bus_blocks, held}
use switcher_c.World.Weight.{calls, weigh_calls, sum}
use switcher_c.Tables.Prepared.{IsPreparedBus}
use switcher_c.Tables.{drivers}
use switcher_c.World.{Object, Env, World}
use switcher_c.World.Returns.{Returns, Returns-of_eq}

sum-set :
    {A : Type 0} (m : A → ℕ) (xs : List A) (i : ℕ) {x : A} (y : A)
    → get_elem? xs i ≡ some x
    → sum m (set xs i y) + m x ≡ sum m xs + m y
sum-set m [] i y e = cc
sum-set m (z ∷ xs) zero y e = omega (arith, ap m (some-inj e))
sum-set m (z ∷ xs) (suc i) y e = omega (arith, sum-set m xs i y e)

-- One device more, the given one at its index.
abbrev with_device : IoBus → ℕ → IoDev → IoBus
with_device bus j dev = record bus {
  num_devices = suc_ℤ bus.num_devices;
  devices = set bus.devices j dev;
}

abbrev pub holds : (Object → ℕ) → BusConfigs → ℕ
holds g u = sum (held (calls g g)) u.config.busses

-- What is made is what the configuration holds more.
abbrev pub Grown : (Object → ℕ) → (Object → ℕ) → BusConfigs → World → BusConfigs → World → Type 0
Grown g h u w u' w' = weigh_calls g h w'.log + holds g u ≡ weigh_calls g h w.log + holds g u'

-- The devices of bus `i` from `j` on have no block.
abbrev pub Spare : ℕ → ℕ → BusConfigs → Type 0
Spare i j u =
    (bus : IoBus) (k : ℕ) (dev : IoDev)
    → get_elem? u.config.busses i ≡ some bus
    → j ≤ k
    → get_elem? bus.devices k ≡ some dev
    → dev.dev_bus_data ≡ none

module _ (env : Env) (memory : HasMemory env) (g h : Object → ℕ) (orig : List IoBus)
    (clear : All IsClearBus orig) where
  pub device-Grown :
      (i j : ℕ) (last : Bytes) (u : BusConfigs) (w : World) (d : DeviceSection)
      → AtBus orig i j last u
      → Spare i j u
      → j < max_io_devices
      → DeviceFits last d
      → Returns
          (λ u' w'. Grown g h u w u' w' × Spare i (suc j) u')
          (handle_all drivers u (device_entries d) env w)
  device-Grown i j last u w d a spare lt fits =
      let valid : BusIsValid a.bus =
        All-get_elem? BusIsValid u.config.busses i a.described.valid a.at in
      let ready : IsPreparedBus a.bus =
        First-get_elem? IsPreparedBus (suc i) u.config.busses i a.described.prepared (omega arith)
          a.at in
      let (dev, dev_at) = get_elem?-lt a.bus.devices j (omega (arith, valid.devices_length)) in
      let opens : Opens u d.section = record {
        other = rw a.described.last_is fits.follows.0;
        fits = fits.follows.1;
      } in
      Returns-of_eq
        (handle_all-device_section u d.section d.name d.address i j a.bus dev fits.driver env w
          opens fits.no_bus fits.is_device a.here a.next_dev a.at dev_at fits.known ready.driver
          (memory.granted w.log Object.dev_data_object))
        (grown dev dev_at, still dev)
    where
      grown :
          (dev : IoDev)
          → get_elem? a.bus.devices j ≡ some dev
          → g Object.dev_data_object + weigh_calls g h w.log + holds g u
            ≡ weigh_calls g h w.log
              + sum (held (calls g g)) (
                  set u.config.busses i
                    (with_device a.bus j (described_dev dev fits.driver d.address)))
      grown dev dev_at = omega (
        arith,
        sum-set (held (calls g g)) u.config.busses i
            (with_device a.bus j (described_dev dev fits.driver d.address)) a.at,
        sum-set (λ x. dev_blocks (calls g g) x.dev_bus_data) a.bus.devices j
            (described_dev dev fits.driver d.address) dev_at,
        ap (dev_blocks (calls g g)) (spare a.bus j dev a.at (omega arith) dev_at),
      )

      still :
          (dev : IoDev) (bus : IoBus) (k : ℕ) (x : IoDev)
          → get_elem?
              (set u.config.busses i
                (with_device a.bus j (described_dev dev fits.driver d.address)))
              i
            ≡ some bus
          → suc j ≤ k
          → get_elem? bus.devices k ≡ some x
          → x.dev_bus_data ≡ none
      still dev bus k x at le found =
          let is : with_device a.bus j (described_dev dev fits.driver d.address) ≡ bus = some-inj (
            sym (
              get_elem?-set_self u.config.busses i
                (with_device a.bus j (described_dev dev fits.driver d.address))
                (length-lt u.config.busses i a.at))
            ∙ at) in
          spare a.bus k x a.at (omega arith) (
            sym (
              get_elem?-set_ne a.bus.devices j k (described_dev dev fits.driver d.address)
                (λ e. absurd (omega (arith, e))))
            ∙ (ap (λ (b : IoBus). get_elem? b.devices k) is ∙ found))

  pub bus-Grown :
      (n : ℕ) (last : Bytes) (u : BusConfigs) (w : World) (b : BusSection)
      → Described orig n last u
      → n < max_busses
      → BusFits last b
      → Returns
          (λ u' w'. Grown g h u w u' w' × Spare n 0 u')
          (handle_all drivers u
            (entry b.section (text "bus_type") (text "i2c")
              ∷ entry b.section (text "bus_parameter") b.file
              ∷ [])
            env
            w)
  bus-Grown n last u w b d lt fits =
      let (bus, at) = get_elem?-lt u.config.busses n (omega (arith, d.size)) in
      let opens : Opens u b.section = record {
        other = rw d.last_is fits.follows.0;
        fits = fits.follows.1;
      } in
      let free = All-get_elem? IsClearBus orig n clear (d.others n bus (omega arith) at) in
      Returns-of_eq
        (handle_all-bus_section u b.section b.file n bus env w opens fits.is_bus d.next_bus at
          (memory.granted w.log Object.bus_data_object))
        (grown bus at free, still bus at free)
    where
      grown :
          (bus : IoBus)
          → get_elem? u.config.busses n ≡ some bus
          → IsClearBus bus
          → g Object.bus_data_object + weigh_calls g h w.log + holds g u
            ≡ weigh_calls g h w.log
              + sum (held (calls g g)) (set u.config.busses n (described_bus bus b.file))
      grown bus at free = omega (
        arith,
        sum-set (held (calls g g)) u.config.busses n (described_bus bus b.file) at,
        ap (bus_blocks (calls g g)) free.no_data,
      )

      still :
          (bus : IoBus)
          → get_elem? u.config.busses n ≡ some bus
          → IsClearBus bus
          → (bus' : IoBus) (k : ℕ) (x : IoDev)
          → get_elem? (set u.config.busses n (described_bus bus b.file)) n ≡ some bus'
          → 0 ≤ k
          → get_elem? bus'.devices k ≡ some x
          → x.dev_bus_data ≡ none
      still bus at free bus' k x at' le found =
          let is : described_bus bus b.file ≡ bus' = some-inj (
            sym (
              get_elem?-set_self u.config.busses n (described_bus bus b.file)
                (length-lt u.config.busses n at))
            ∙ at') in
          (All-get_elem? IsClearDev bus.devices k free.clear_devices
            (ap (λ (b : IoBus). get_elem? b.devices k) is ∙ found)).no_bus_block
