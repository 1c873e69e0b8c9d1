-- ===== src/ParseConfig/Sections.antt =====
-- src/parse_config.c: the first and the further entries of a section, and those of a bus's section.
use switcher_c.Base.{
  ℕ, zero, suc, ◌+◌, ◌<◌, ◌≡◌, refl, ap, arith, some, true, false, [], ◌∷◌, List, ==_self,
}
use switcher_c.Base.Int.{ℤ, pos, minus_one, suc_ℤ, eqb_ℤ}
use switcher_c.Base.Lists.{get_elem?, set, length, take, take-of_le, get_elem?-set_self}
use switcher_c.Base.Text.{Bytes, text}
use switcher_c.Config.{IoBus, IoConfig, i2c_linux, i2c_dev_len}
use switcher_c.I2cLinux.{get_i2c_linux_bus_data}
use switcher_c.Libc.{strncmp_eq}
use switcher_c.ParseConfig.{
  Entry, BusConfigs, max_ini_entry_len, next_ids, update_user_data, set_bus_type, kind_of,
  set_bus_param, process_kind, process_entries, parser_handler, handle_all,
}
use switcher_c.Tables.{drivers}
use switcher_c.World.{Object, Event, Env, World, ok, pure}

strncmp_eq_self : (n : ℕ) (s : Bytes) → strncmp_eq s s n ≡ true
unfolding strncmp_eq
strncmp_eq_self zero s = refl
strncmp_eq_self (suc n) [] = refl
strncmp_eq_self (suc n) (c ∷ s) = rw (==_self c) (strncmp_eq_self n s)

pub set-set : {A : Type 0} (xs : List A) (i : ℕ) (a b : A) → set (set xs i a) i b ≡ set xs i b
set-set [] i a b = refl
set-set (x ∷ xs) zero a b = refl
set-set (x ∷ xs) (suc i) a b = ap (◌∷◌ x) (set-set xs i a b)

pub length-lt : {A : Type 0} (xs : List A) (i : ℕ) {a : A} → get_elem? xs i ≡ some a → i < length xs
length-lt [] i e = cc
length-lt (x ∷ xs) zero e = omega arith
length-lt (x ∷ xs) (suc i) e = omega (arith, length-lt xs i e)

-- A section that is not the one before it.
pub record Opens (u : BusConfigs) (section : Bytes) : Type 0 where
  pub other : strncmp_eq u.last_section section max_ini_entry_len ≡ false
  pub fits : length section < max_ini_entry_len

module _ (u : BusConfigs) (section : Bytes) (opens : Opens u section) where
  -- The user data behind the first entry of a section for a bus, and for a device.
  pub enter_bus :
      strncmp_eq section (text "bus") 3 ≡ true
      → update_user_data u section ≡ record {
        config = record u.config { num_busses = suc_ℤ (suc_ℤ u.current_bus_id) };
        last_section = section;
        current_bus_id = suc_ℤ u.current_bus_id;
        current_dev_id = minus_one;
      }
  unfolding update_user_data next_ids
  enter_bus h =
      rw (opens.other, h, take-of_le max_ini_entry_len section (omega (arith, opens.fits)))

  pub enter_device :
      strncmp_eq section (text "bus") 3 ≡ false
      → strncmp_eq section (text "device") 6 ≡ true
      → update_user_data u section ≡ record {
        config = record u.config { num_busses = suc_ℤ u.current_bus_id };
        last_section = section;
        current_bus_id = u.current_bus_id;
        current_dev_id = suc_ℤ u.current_dev_id;
      }
  unfolding update_user_data next_ids
  enter_device g h =
      rw (opens.other, g, h, take-of_le max_ini_entry_len section (omega (arith, opens.fits)))

-- A further entry of the same section.
pub stay :
    (c : IoConfig) (section : Bytes) (b d : ℤ)
    → length section < max_ini_entry_len
    → update_user_data
        (record { config = c; last_section = section; current_bus_id = b; current_dev_id = d })
        section
      ≡ record {
        config = record c { num_busses = suc_ℤ b };
        last_section = section;
        current_bus_id = b;
        current_dev_id = d;
      }
unfolding update_user_data
stay c section b d h =
    rw (
      strncmp_eq_self max_ini_entry_len section,
      take-of_le max_ini_entry_len section (omega arith),
    )

-- The bus that its section describes.
abbrev pub described_bus : IoBus → Bytes → IoBus
described_bus bus file = record bus {
  drv_handle = some i2c_linux;
  bus_data = some (record { device = take i2c_dev_len file; fh = minus_one });
}

abbrev pub entry : Bytes → Bytes → Bytes → Entry
entry s n v = record { section = s; name = n; value = v }

module _ (c : IoConfig) (i : ℕ) (bus : IoBus) (at : get_elem? c.busses i ≡ some bus) where
  set_bus_type-i2c :
      set_bus_type c (pos i) (text "i2c")
      ≡ pure (record c { busses = set c.busses i (record bus { drv_handle = some i2c_linux }) })
  unfolding set_bus_type strncmp_eq
  set_bus_type-i2c = rw at

  set_bus_param-i2c :
      (file : Bytes) (env : Env) (w : World)
      → bus.drv_handle ≡ some i2c_linux
      → eqb_ℤ (env.ret w.log (Event.malloc Object.bus_data_object)) (pos 0) ≡ false
      → set_bus_param drivers c (pos i) file env w
        ≡ ok
            (record c { busses = set c.busses i (described_bus bus file) })
            (record w { log = Event.malloc Object.bus_data_object ∷ w.log })
  unfolding set_bus_param get_i2c_linux_bus_data
  set_bus_param-i2c file env w h granted = rw at (rw h (rw granted))

module _ (u : BusConfigs) (section file : Bytes) (i : ℕ) (bus : IoBus) (env : Env) (w : World)
    (opens : Opens u section) (is_bus : strncmp_eq section (text "bus") 3 ≡ true)
    (next : suc_ℤ u.current_bus_id ≡ pos i) (at : get_elem? u.config.busses i ≡ some bus) where
  -- The user data with the given bus at the section's index.
  abbrev at_bus : IoBus → BusConfigs
  at_bus b = record {
    config = record { num_busses = pos (i + 1); busses = set u.config.busses i b };
    last_section = section;
    current_bus_id = pos i;
    current_dev_id = minus_one;
  }

  abbrev typed_bus : IoBus
  typed_bus = record bus { drv_handle = some i2c_linux }

  first_entry :
      parser_handler drivers u (entry section (text "bus_type") (text "i2c")) env w
      ≡ ok (pos 1, at_bus typed_bus) w
  unfolding parser_handler process_entries process_kind kind_of strncmp_eq
  first_entry = rw (enter_bus u section opens is_bus) (
      rw next (
        rw (
          set_bus_type-i2c (record { num_busses = pos (i + 1); busses = u.config.busses }) i bus
            at)))

  second_entry :
      eqb_ℤ (env.ret w.log (Event.malloc Object.bus_data_object)) (pos 0) ≡ false
      → parser_handler drivers (at_bus typed_bus) (entry section (text "bus_parameter") file) env w
        ≡ ok
            (pos 1, at_bus (described_bus bus file))
            (record w { log = Event.malloc Object.bus_data_object ∷ w.log })
  unfolding parser_handler process_entries process_kind kind_of strncmp_eq
  second_entry granted =
      let c = (at_bus typed_bus).config in
      let found = get_elem?-set_self u.config.busses i typed_bus (length-lt u.config.busses i at) in
      rw (stay c section (pos i) minus_one opens.fits) (
        rw (set_bus_param-i2c c i typed_bus found file env w refl granted)
          (rw (set-set u.config.busses i typed_bus (described_bus bus file))))

  -- The entries `bus_type` with `i2c` and `bus_parameter` of a section that begins with `bus`,
  -- differs from the last one and is shorter than 128 bytes, where the next bus index is that of
  -- an element of the array and there is memory for the bus data: the handler makes that bus an
  -- I2C bus with the first 32 bytes of the parameter as its device, not yet opened, counts the
  -- buses up to it, starts its devices from none, and changes no other bus.
  pub handle_all-bus_section :
      eqb_ℤ (env.ret w.log (Event.malloc Object.bus_data_object)) (pos 0) ≡ false
      → handle_all drivers u
          (entry section (text "bus_type") (text "i2c")
            ∷ entry section (text "bus_parameter") file
            ∷ [])
          env
          w
        ≡ ok
            (at_bus (described_bus bus file))
            (record w { log = Event.malloc Object.bus_data_object ∷ w.log })
  unfolding handle_all
  handle_all-bus_section granted = rw first_entry (rw (second_entry granted))
