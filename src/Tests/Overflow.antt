-- ===== src/Tests/Overflow.antt =====
-- src/parse_config.c: the theorem on a file with nine buses, applied.
use switcher_c.Base.{◌≡◌, refl, arith, some, List, [], ◌∷◌, ◌++◌}
use switcher_c.Base.Lists.{All-replicate}
use switcher_c.Base.Text.{Bytes, text}
use switcher_c.IoCore.Init.{IsClearBus}
use switcher_c.Libc.{strncmp_eq}
use switcher_c.ParseConfig.File.{BusSection, BusFits, BussesFit, Follows, file_entries}
use switcher_c.ParseConfig.Overflow.{parse_config-ninth_bus}
use switcher_c.ParseConfig.Sections.{entry}
use switcher_c.ParseConfig.{parse_config}
use switcher_c.Tables.{drivers}
use switcher_c.Tests.Life.{rich_env-HasMemory, free_bus-IsClearBus}
use switcher_c.Tests.{cleared, rich_env, start, free_bus}
use switcher_c.World.{fault}

abbrev bus_a : BusSection
bus_a = record { section = text "busA"; file = text "/dev/i2c-0"; devices = [] }

abbrev bus_b : BusSection
bus_b = record { section = text "busB"; file = text "/dev/i2c-1"; devices = [] }

abbrev eight : List BusSection
eight = bus_a ∷ bus_b ∷ bus_a ∷ bus_b ∷ bus_a ∷ bus_b ∷ bus_a ∷ bus_b ∷ []

bus_a-BusFits : (last : Bytes) → Follows last (text "busA") → BusFits last bus_a
unfolding strncmp_eq
bus_a-BusFits last follows = record {
  follows = follows;
  is_bus = refl;
  name_fits = omega arith;
  device_count = omega arith;
  devices_fit = tt;
}

bus_b-BusFits : BusFits (text "busA") bus_b
unfolding strncmp_eq
bus_b-BusFits = record {
  follows = (refl, omega arith);
  is_bus = refl;
  name_fits = omega arith;
  device_count = omega arith;
  devices_fit = tt;
}

eight-BussesFit : BussesFit [] eight
unfolding strncmp_eq
eight-BussesFit =
    let a = bus_a-BusFits (text "busB") (refl, omega arith) in
    let b = bus_b-BusFits in
    (bus_a-BusFits [] (refl, omega arith), (b, (a, (b, (a, (b, (a, (b, tt))))))))

parse_config-ninth_bus_example :
    parse_config drivers
      (text "io.ini")
      (some (file_entries eight ++ entry (text "busA") (text "bus_type") (text "i2c") ∷ []))
      cleared
      rich_env
      start
    ≡ fault
unfolding strncmp_eq
parse_config-ninth_bus_example =
    parse_config-ninth_bus (text "io.ini") (text "busA") eight [] cleared rich_env start
      rich_env-HasMemory refl refl (All-replicate IsClearBus 8 free_bus free_bus-IsClearBus) refl
      eight-BussesFit (refl, omega arith) refl
