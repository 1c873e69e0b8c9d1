-- ===== src/ParseConfig/Overflow.antt =====
-- src/parse_config.c: a file with more buses than the array has.
use switcher_c.Base.{ℕ, ◌+◌, ◌≡◌, refl, arith, true, none, some, List, [], ◌∷◌, ◌++◌}
use switcher_c.Base.Int.{pos, suc_ℤ}
use switcher_c.Base.Lists.{All, length, get_elem?, get_elem?-past}
use switcher_c.Base.Text.{Bytes, text}
use switcher_c.Config.{IoConfig, max_busses}
use switcher_c.IoCore.Init.{IsClearBus}
use switcher_c.Libc.{strncmp_eq}
use switcher_c.ParseConfig.Build.{handle_all-append}
use switcher_c.ParseConfig.File.{
  BusSection, file_entries, Follows, last_of_file, BussesFit, HasMemory,
}
use switcher_c.ParseConfig.Sections.{Opens, entry, enter_bus}
use switcher_c.ParseConfig.Whole.{fresh, fresh-Described, busses-Described}
use switcher_c.ParseConfig.{
  Entry, BusConfigs, set_bus_type, kind_of, process_kind, process_entries, parser_handler,
  handle_all, parse_config,
}
use switcher_c.Tables.{drivers}
use switcher_c.World.{Env, World, fault}
use switcher_c.World.Returns.{Returns-fault}

-- The type of a bus is stored past the end of the array.
handle_all-past :
    (u : BusConfigs) (section : Bytes) (more : List Entry) (n : ℕ) (env : Env) (w : World)
    → Opens u section
    → strncmp_eq section (text "bus") 3 ≡ true
    → suc_ℤ u.current_bus_id ≡ pos n
    → get_elem? u.config.busses n ≡ none
    → handle_all drivers u (entry section (text "bus_type") (text "i2c") ∷ more) env w ≡ fault
unfolding handle_all parser_handler process_entries process_kind kind_of strncmp_eq set_bus_type
handle_all-past u section more n env w opens is_bus next past =
    rw (enter_bus u section opens is_bus) (rw next (rw past refl))

-- On an empty configuration, with memory for every block, a file of eight I2C buses as the
-- handler expects them, and behind them a section that begins with `bus`, differs from the one
-- before it, is shorter than 128 bytes and has `i2c` as its `bus_type`: the handler stores the
-- bus's driver past the end of the array, which is undefined behaviour, whatever follows in the
-- file.
pub parse_config-ninth_bus :
    (filename section : Bytes) (bs : List BusSection) (more : List Entry) (c : IoConfig) (env : Env)
    (w : World)
    → HasMemory env
    → c.num_busses ≡ pos 0
    → length c.busses ≡ max_busses
    → All IsClearBus c.busses
    → length bs ≡ max_busses
    → BussesFit [] bs
    → Follows (last_of_file [] bs) section
    → strncmp_eq section (text "bus") 3 ≡ true
    → parse_config drivers filename
        (some (file_entries bs ++ entry section (text "bus_type") (text "i2c") ∷ more))
        c
        env
        w
      ≡ fault
unfolding parse_config
parse_config-ninth_bus filename section bs more c env w memory none_yet size clear full fit follows
      is_bus =
    rw
      (handle_all-append (file_entries bs) (entry section (text "bus_type") (text "i2c") ∷ more)
        (fresh c) env w)
      (rw (
        Returns-fault
          (busses-Described env memory c.busses clear bs 0 [] (fresh c) w
            (fresh-Described c none_yet size clear) (omega arith) fit)
          λ u w' (d, _).
            handle_all-past u section more (0 + length bs) env w'
              (record { other = rw d.last_is follows.0; fits = follows.1 }) is_bus d.next_bus
              (get_elem?-past u.config.busses (0 + length bs) (omega (arith, d.size)))))
