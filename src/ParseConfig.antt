-- ===== src/ParseConfig.antt =====
-- src/parse_config.c: the handler that the INI parser calls for each entry, and what it builds.
-- The parser itself is inih (src/ini.c): it enters as the list of the entries that it hands to the
-- handler, in their order, or as `none` where it cannot open the file.
pub mod Sections
pub mod Devices
pub mod File
pub mod Build
pub mod Grow
pub mod Whole
pub mod Overflow
pub mod Board
pub mod Sample
pub mod Held
pub mod Made
use switcher_c.Base.{ℕ, Option, none, some, List, [], ◌∷◌, ◌++◌, not, if◌then◌else◌}
use switcher_c.Base.Int.{ℤ, pos, minus_one, suc_ℤ}
use switcher_c.Base.Lists.{take}
use switcher_c.Base.Text.{Bytes, text}
use switcher_c.Config.{
  DevDrv, pcf8574, mcp23017, piface, i2c_linux, IoDev, IoBus, IoConfig, elem_at, set_at,
  max_param_len,
}
use switcher_c.Driver.{Drivers}
use switcher_c.IoCore.Lifecycle.{when_some}
use switcher_c.Libc.{strncmp_eq}
use switcher_c.World.{Event, Io, pure, ◌>>=◌, ◌>>◌, deref, emit}

abbrev pub max_ini_entry_len : ℕ
max_ini_entry_len = 128

-- One call of the handler.
pub record Entry : Type 0 where
  pub section : Bytes
  pub name : Bytes
  pub value : Bytes

-- `bus_configs`.
pub record BusConfigs : Type 0 where
  pub config : IoConfig
  pub last_section : Bytes
  pub current_bus_id : ℤ
  pub current_dev_id : ℤ

-- The indices after a section of the given name; the flag says that it is another one.
unfoldable pub next_ids : Bytes → ℤ → ℤ → ℤ × ℤ
unfolding strncmp_eq
next_ids section bus_id dev_id =
    if strncmp_eq section (text "bus") 3
    then (suc_ℤ bus_id, minus_one)
    else if strncmp_eq section (text "device") 6
    then (bus_id, suc_ℤ dev_id)
    else (bus_id, dev_id)

unfoldable pub update_user_data : BusConfigs → Bytes → BusConfigs
unfolding strncmp_eq next_ids
update_user_data u section =
    let ids =
      if not (strncmp_eq u.last_section section max_ini_entry_len)
      then next_ids section u.current_bus_id u.current_dev_id
      else (u.current_bus_id, u.current_dev_id) in
    record {
      config = record u.config { num_busses = suc_ℤ ids.0 };
      last_section = take max_ini_entry_len section;
      current_bus_id = ids.0;
      current_dev_id = ids.1;
    }

abbrev store_bus : IoConfig → ℤ → IoBus → IoConfig
store_bus c b bus = record c { busses = set_at c.busses b bus }

-- The driver that a `devdrv` value names.
unfoldable pub driver_of : Bytes → Option DevDrv
unfolding strncmp_eq
driver_of value =
    if strncmp_eq value (text "pcf8574") max_ini_entry_len
    then some pcf8574
    else if strncmp_eq value (text "piface") max_ini_entry_len
    then some piface
    else if strncmp_eq value (text "mcp23017") max_ini_entry_len
    then some mcp23017
    else none

-- `current_dev->f = …`, through the bus at `b`.
unfoldable pub update_dev : IoConfig → ℤ → ℤ → (IoDev → IoDev) → Io IoConfig
update_dev c b i change = do
  bus ← deref (elem_at c.busses b)
  dev ← deref (elem_at bus.devices i)
  pure (store_bus c b (record bus { devices = set_at bus.devices i (change dev) }))

unfoldable pub count_device : IoConfig → ℤ → Io IoConfig
count_device c b = do
  bus ← deref (elem_at c.busses b)
  pure (store_bus c b (record bus { num_devices = suc_ℤ bus.num_devices }))

unfoldable pub set_driver : IoConfig → ℤ → ℤ → Bytes → Io IoConfig
set_driver c b i value =
    when_some (driver_of value)
      (λ drv. update_dev c b i (λ dev. record dev { drv_handle = some drv })) (pure c)

unfoldable pub set_bus_type : IoConfig → ℤ → Bytes → Io IoConfig
set_bus_type c b value =
    if strncmp_eq value (text "i2c") max_param_len
    then (do
      bus ← deref (elem_at c.busses b)
      pure (store_bus c b (record bus { drv_handle = some i2c_linux })))
    else pure c

-- What an entry's name selects.
pub data EntryKind : Type 0 where
  bus_param bus_type dev_drv dev_param unknown : EntryKind

unfoldable pub kind_of : Bytes → EntryKind
unfolding strncmp_eq
kind_of name =
    if strncmp_eq name (text "bus_parameter") max_ini_entry_len
    then bus_param
    else if strncmp_eq name (text "bus_type") max_ini_entry_len
    then bus_type
    else if strncmp_eq name (text "devdrv") max_ini_entry_len
    then dev_drv
    else if strncmp_eq name (text "dev_parameter") max_ini_entry_len
    then dev_param
    else unknown

module _ (drivers : Drivers) where
  open drivers use {bus_ops}

  unfoldable pub set_bus_param : IoConfig → ℤ → Bytes → Io IoConfig
  set_bus_param c b value = do
    bus ← deref (elem_at c.busses b)
    when_some bus.drv_handle
        (λ h.
          when_some (bus_ops h).get_bus_data
            (λ f. do p ← f value; pure (store_bus c b (record bus { bus_data = p }))) (pure c))
        (pure c)

  unfoldable pub set_dev_param : IoConfig → ℤ → ℤ → Bytes → Io IoConfig
  set_dev_param c b i value = do
    bus ← deref (elem_at c.busses b)
    when_some bus.drv_handle
        (λ h.
          when_some (bus_ops h).get_bus_dev_data
            (λ f. do p ← f value; update_dev c b i (λ dev. record dev { dev_bus_data = p }))
            (pure c))
        (pure c)

  -- The result is the handler's: 0 for an unknown entry, else 1.
  unfoldable pub process_kind : EntryKind → IoConfig → ℤ → ℤ → Bytes → Io (ℤ × IoConfig)
  process_kind bus_param c b i value = do c' ← set_bus_param c b value; pure (pos 1, c')
  process_kind bus_type c b i value = do c' ← set_bus_type c b value; pure (pos 1, c')
  process_kind dev_drv c b i value = do
    c' ← set_driver c b i value
    c'' ← count_device c' b
    pure (pos 1, c'')
  process_kind dev_param c b i value = do c' ← set_dev_param c b i value; pure (pos 1, c')
  process_kind unknown c b i value = pure (pos 0, c)

  unfoldable pub process_entries : IoConfig → ℤ → ℤ → Bytes → Bytes → Io (ℤ × IoConfig)
  process_entries c b i name value = process_kind (kind_of name) c b i value

  unfoldable pub parser_handler : BusConfigs → Entry → Io (ℤ × BusConfigs)
  parser_handler u e = do
    let u' = update_user_data u e.section
    (rc, config) ← process_entries u'.config u'.current_bus_id u'.current_dev_id e.name e.value
    pure (rc, record u' { config = config })

  -- The calls of the handler; its results only decide the error line that `ini_parse` returns.
  unfoldable pub handle_all : BusConfigs → List Entry → Io BusConfigs
  handle_all u [] = pure u
  handle_all u (e ∷ es) = do (rc, u') ← parser_handler u e; handle_all u' es

  unfoldable pub parse_config : Bytes → Option (List Entry) → IoConfig → Io (ℤ × IoConfig)
  parse_config filename none config = do
    emit (Event.put_syslog (text "Can't load '" ++ filename ++ text "'\n"))
    pure (pos 1, config)
  parse_config filename (some entries) config = do
    u ←
        handle_all
          (record {
            config = config;
            last_section = [];
            current_bus_id = minus_one;
            current_dev_id = minus_one;
          })
          entries
    pure (pos 0, u.config)

-- Not implemented in the source either: every configuration is taken.
unfoldable pub validate_config : IoConfig → ℤ
validate_config config = pos 0
