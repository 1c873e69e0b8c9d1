-- ===== src/Tests/Life.antt =====
-- src/parse_config.c and src/main.c: the theorems on a whole file and on the program's life, applied.
use switcher_c.Base.{ℕ, ◌≤◌, ◌≡◌, refl, arith, some, none, false, List, [], ◌∷◌, inl, inr}
use switcher_c.Base.Int.{pos, pos_part}
use switcher_c.Base.Lists.{get_elem?, First, All-replicate}
use switcher_c.Base.Text.{text}
use switcher_c.Config.{IoBus, IsValid, mcp23017, pcf8574}
use switcher_c.Http.RoundTrip.{parse_uri-uri}
use switcher_c.Http.Uri.{uri}
use switcher_c.Http.{Connection, mg_request, mg_auth, request_set}
use switcher_c.IoCore.Init.{HasArrays, IsClearBus, IsClearDev}
use switcher_c.IoCore.Ready.{Serves}
use switcher_c.IoCore.Wiring.{wiring}
use switcher_c.IoCore.Serve.{digit}
use switcher_c.Libc.{strncmp_eq, print_ℕ, print_onto}
use switcher_c.Main.Requests.{Acceptable, auth, request, serve_all-Serves}
use switcher_c.Main.{serve_all}
use switcher_c.Tables.OpenBus.{IsOpenBus}
use switcher_c.ParseConfig.File.{
  BusSection, DeviceSection, DeviceFits, BussesFit, file_entries, HasMemory,
}
use switcher_c.ParseConfig.Whole.{parse_config-Described}
use switcher_c.ParseConfig.{parse_config, driver_of}
use switcher_c.Tables.Discard.{HasNoBlock, CanDiscard, empty}
use switcher_c.Tables.Ready.{contract}
use switcher_c.Tables.Prepared.{IsPreparedBus}
use switcher_c.Tables.{drivers}
use switcher_c.Tests.{
  bus, bus_block, cleared, rich_env, env, start, config, config-Serves, free_dev, free_bus, set_pin,
}
use switcher_c.World.Returns.{Returns}

pub rich_env-HasMemory : HasMemory rich_env
rich_env-HasMemory = record { granted = λ l o. refl }

abbrev chip : DeviceSection
chip = record { section = text "device0"; name = text "mcp23017"; address = text "0x20" }

abbrev expander : DeviceSection
expander = record { section = text "device1"; name = text "pcf8574"; address = text "0x38" }

-- One bus with two devices.
abbrev pub file : List BusSection
file =
    record { section = text "bus0"; file = text "/dev/i2c-1"; devices = chip ∷ expander ∷ [] } ∷ []

chip-DeviceFits : DeviceFits (text "bus0") chip
unfolding strncmp_eq driver_of
chip-DeviceFits = record {
  follows = (refl, omega arith);
  no_bus = refl;
  is_device = refl;
  driver = mcp23017;
  known = refl;
  on_i2c = inr refl;
}

expander-DeviceFits : DeviceFits (text "device0") expander
unfolding strncmp_eq driver_of
expander-DeviceFits = record {
  follows = (refl, omega arith);
  no_bus = refl;
  is_device = refl;
  driver = pcf8574;
  known = refl;
  on_i2c = inl refl;
}

pub file-BussesFit : BussesFit [] file
unfolding strncmp_eq
file-BussesFit = (
  record {
    follows = (refl, omega arith);
    is_bus = refl;
    name_fits = omega arith;
    device_count = omega arith;
    devices_fit = (chip-DeviceFits, (expander-DeviceFits, tt));
  },
  tt,
)

free_dev-IsClearDev : IsClearDev free_dev
free_dev-IsClearDev = record { no_driver = refl; no_bus_block = refl; no_block = refl }

pub free_bus-IsClearBus : IsClearBus free_bus
free_bus-IsClearBus = record {
  no_devices = refl;
  no_data = refl;
  size = refl;
  clear_devices = All-replicate IsClearDev 128 free_dev free_dev-IsClearDev;
}

parse_config-Described_example :
    Returns
      (λ (rc, c) w.
        (rc ≡ pos 0)
        × (c.num_busses ≡ pos 1)
        × IsValid c
        × First IsPreparedBus (pos_part c.num_busses) c.busses
        × (w.spi ≡ none)
        × ((k : ℕ) (b : IoBus)
            → 1 ≤ k
            → get_elem? c.busses k ≡ some b
            → get_elem? cleared.busses k ≡ some b))
      (parse_config drivers (text "io.ini") (some (file_entries file)) cleared rich_env start)
parse_config-Described_example =
    parse_config-Described rich_env rich_env-HasMemory (text "io.ini") file cleared start refl refl
      (All-replicate IsClearBus 8 free_bus free_bus-IsClearBus) (omega arith) file-BussesFit

pub config-HasArrays : HasArrays config
config-HasArrays = record {
  busses_length = refl;
  devices_length = (refl, (refl, (refl, (refl, (refl, (refl, (refl, (refl, tt))))))));
}

abbrev pub conn : Connection
conn = record { uri = uri 0 0 (some 5) (some 1); is_websocket = false }

pub conn-Acceptable : Acceptable conn mg_request
unfolding print_ℕ print_onto
conn-Acceptable =
    request request_set set_pin
      (parse_uri-uri 0 0 (some 5) (some 1) (omega arith) (omega arith) (omega arith) (omega arith))
      (omega arith)
      (record {
        bus_range = omega arith;
        dev_range = omega arith;
        sub_range = inr (digit 5 refl (omega arith));
      })

serve_all-Serves_example :
    Returns
      (λ c w. Serves drivers contract none c × (w.spi ≡ none) × (wiring c ≡ wiring config))
      (serve_all ((conn, mg_auth) ∷ (conn, mg_request) ∷ (conn, mg_request) ∷ []) config env start)
serve_all-Serves_example =
    serve_all-Serves ((conn, mg_auth) ∷ (conn, mg_request) ∷ (conn, mg_request) ∷ []) config env
      start (auth, (conn-Acceptable, (conn-Acceptable, tt))) config-Serves refl

pub free_bus-CanDiscard : CanDiscard free_bus
free_bus-CanDiscard = empty refl (record {
  size = refl;
  no_bus_block = refl;
  no_dev_block = All-replicate HasNoBlock 128 free_dev refl;
})

pub bus-IsOpenBus : IsOpenBus bus
bus-IsOpenBus = record {
  driver = refl;
  block = bus_block;
  has_block = refl;
  i2c_devices = (inr refl, (inl refl, tt));
  bound = omega arith;
  size = refl;
}
