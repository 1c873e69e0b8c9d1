-- ===== src/ParseConfig/Build.antt =====
-- src/parse_config.c: the user data between the sections of a file, and the step over a bus's entries.
use mathlib.Core.Path.{subst}
use switcher_c.Base.{
  ℕ, suc, ◌+◌, ◌≤◌, ◌<◌, ◌≡◌, ◌∙◌, refl, sym, ap, arith, some, true, List, [], ◌∷◌, ◌++◌,
}
use switcher_c.Base.Int.{ℤ, pos, minus_one, suc_ℤ}
use switcher_c.Base.Lists.{
  All, First, First-set_next, All-set, All-get_elem?, get_elem?, set, length, length-set,
  get_elem?-set_self, get_elem?-set_ne, get_elem?-lt, take-of_le, take,
}
use switcher_c.Base.Text.{Bytes, text}
use switcher_c.Config.{BusIsValid, IoBus, i2c_dev_len, max_busses}
use switcher_c.IoCore.Init.{IsClearBus}
use switcher_c.Libc.{strncmp_eq}
use switcher_c.ParseConfig.Sections.{Opens, entry, described_bus, handle_all-bus_section, length-lt}
use switcher_c.ParseConfig.{parser_handler, Entry, BusConfigs, handle_all}
use switcher_c.Tables.Prepared.{IsPreparedBus}
use switcher_c.Tables.{drivers}
use switcher_c.World.{Object, Env, World, Run, ok, fault, and_then}
use switcher_c.World.Returns.{Returns, bind, Returns-of_eq}
use switcher_c.ParseConfig.File.{Follows, HasMemory}

pub handle_all-append :
    (xs ys : List Entry) (u : BusConfigs) (env : Env) (w : World)
    → handle_all drivers u (xs ++ ys) env w
      ≡ and_then (handle_all drivers u xs env w) (λ u' w'. handle_all drivers u' ys env w')
unfolding handle_all
handle_all-append [] ys u env w = refl
handle_all-append (x ∷ xs) ys u env w =
    split (parser_handler drivers u x env w) (λ u' w'. handle_all-append xs ys u' env w')
  where
    split :
        (r : Run (ℤ × BusConfigs))
        → ((u' : BusConfigs) (w' : World)
            → handle_all drivers u' (xs ++ ys) env w'
              ≡ and_then
                  (handle_all drivers u' xs env w')
                  (λ u'' w''. handle_all drivers u'' ys env w''))
        → and_then r (λ p w'. handle_all drivers p.1 (xs ++ ys) env w')
          ≡ and_then
              (and_then r (λ p w'. handle_all drivers p.1 xs env w'))
              (λ u' w'. handle_all drivers u' ys env w')
    split (ok p w') again = again p.1 w'
    split fault again = refl

pub handle_all-then :
    {P Q : BusConfigs → World → Type 0} (xs ys : List Entry) (u : BusConfigs) (env : Env)
    (w : World)
    → Returns P (handle_all drivers u xs env w)
    → ((u' : BusConfigs) (w' : World) → P u' w' → Returns Q (handle_all drivers u' ys env w'))
    → Returns Q (handle_all drivers u (xs ++ ys) env w)
handle_all-then {Q = Q} xs ys u env w first next =
    subst (Returns Q) (sym (handle_all-append xs ys u env w)) (bind first next)

-- `n` buses are described, and the others are those of the array that the file was read into.
pub record Described (orig : List IoBus) (n : ℕ) (last : Bytes) (u : BusConfigs) : Type 0 where
  pub last_is : u.last_section ≡ last
  pub next_bus : suc_ℤ u.current_bus_id ≡ pos n
  pub count : u.config.num_busses ≡ pos n
  pub size : length u.config.busses ≡ max_busses
  pub prepared : First IsPreparedBus n u.config.busses
  pub valid : All BusIsValid u.config.busses
  pub others :
      (k : ℕ) (bus : IoBus)
      → n ≤ k
      → get_elem? u.config.busses k ≡ some bus
      → get_elem? orig k ≡ some bus

-- Bus `i` is described, with `j` devices so far.
pub record AtBus (orig : List IoBus) (i j : ℕ) (last : Bytes) (u : BusConfigs) : Type 0 where
  pub described : Described orig (suc i) last u
  pub here : u.current_bus_id ≡ pos i
  pub next_dev : suc_ℤ u.current_dev_id ≡ pos j
  pub bus : IoBus
  pub at : get_elem? u.config.busses i ≡ some bus
  pub dev_count : bus.num_devices ≡ pos j

module _ (env : Env) (memory : HasMemory env) (orig : List IoBus)
    (clear : All IsClearBus orig) where
  pub bus-AtBus :
      (n : ℕ) (last : Bytes) (u : BusConfigs) (w : World) (section file : Bytes)
      → Described orig n last u
      → n < max_busses
      → Follows last section
      → strncmp_eq section (text "bus") 3 ≡ true
      → length file < i2c_dev_len
      → Returns
          (λ u' w'. AtBus orig n 0 section u' × (w'.spi ≡ w.spi))
          (handle_all drivers u
            (entry section (text "bus_type") (text "i2c")
              ∷ entry section (text "bus_parameter") file
              ∷ [])
            env
            w)
  bus-AtBus n last u w section file d lt follows is_bus fits =
      let (bus, at) = get_elem?-lt u.config.busses n (omega (arith, d.size)) in
      let opens : Opens u section = record { other = rw d.last_is follows.0; fits = follows.1 } in
      Returns-of_eq
        (handle_all-bus_section u section file n bus env w opens is_bus d.next_bus at
          (memory.granted w.log Object.bus_data_object))
        (
          state bus at (All-get_elem? IsClearBus orig n clear (d.others n bus (omega arith) at)),
          refl,
        )
    where
      clear_bus : (bus : IoBus) → IsClearBus bus → IsPreparedBus (described_bus bus file)
      clear_bus bus clear = record {
        driver = refl;
        block = record { device = take i2c_dev_len file; fh = minus_one };
        has_block = refl;
        name_fits = rw (take-of_le i2c_dev_len file (omega arith)) fits;
        prepared_devices = rw clear.no_devices tt;
      }

      valid_bus : (bus : IoBus) → IsClearBus bus → BusIsValid (described_bus bus file)
      valid_bus bus clear = record {
        devices_length = clear.size;
        devices_nonneg = rw clear.no_devices (omega arith);
        devices_bound = rw clear.no_devices (omega arith);
      }

      state :
          (bus : IoBus)
          → get_elem? u.config.busses n ≡ some bus
          → IsClearBus bus
          → AtBus orig n 0 section (record {
            config = record {
              num_busses = pos (n + 1);
              busses = set u.config.busses n (described_bus bus file);
            };
            last_section = section;
            current_bus_id = pos n;
            current_dev_id = minus_one;
          })
      state bus at clear = record {
        described = record {
          last_is = refl;
          next_bus = ap pos (omega arith);
          count = ap pos (omega arith);
          size = length-set u.config.busses n (described_bus bus file) ∙ d.size;
          prepared =
              First-set_next IsPreparedBus n u.config.busses (described_bus bus file) d.prepared
                (clear_bus bus clear);
          valid =
              All-set BusIsValid u.config.busses n (described_bus bus file) d.valid
                (valid_bus bus clear);
          others = λ k b h e. d.others k b (omega arith) (
              sym (get_elem?-set_ne u.config.busses n k (described_bus bus file) (omega arith))
              ∙ e);
        };
        here = refl;
        next_dev = refl;
        bus = described_bus bus file;
        at =
            get_elem?-set_self u.config.busses n (described_bus bus file)
              (length-lt u.config.busses n at);
        dev_count = clear.no_devices;
      }
