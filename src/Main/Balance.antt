-- ===== src/Main/Balance.antt =====
-- src/main.c with src/parse_config.c and src/io.c: what is made in the set-up of the configuration is
-- given back in its shutdown.
use mathlib.Core.Path.{subst}
use switcher_c.Base.{ℕ, ◌+◌, ◌≡◌, ◌≤◌, refl, ap, arith, Bool, Option, none, some, List, []}
use switcher_c.Base.Int.{pos, pos_part}
use switcher_c.Base.Lists.{All, All-any, All-weaken, First, length, take}
use switcher_c.Base.Text.{Bytes}
use switcher_c.Config.{
  DevDrv, IoBus, IoDev, IoConfig, max_busses, IsValid, I2cLinuxBusData, I2cLinuxDevData,
  Mcp23017Data, mcp23017, pcf8574, piface,
}
use switcher_c.IoCore.Init.{IsClearBus}
use switcher_c.IoCore.Lifecycle.{io_init}
use switcher_c.Main.Frees.{shut_down-frees}
use switcher_c.Main.Quiet.{serve_all-KeepsBlocks}
use switcher_c.Main.Requests.{Acceptable, serve_all-Serves}
use switcher_c.Main.Wired.{all_blocks-wiring}
use switcher_c.World.Quiet.{quiet-Returns}
use switcher_c.Http.{Connection, MgEvent}
use switcher_c.Main.Life.{NoDriver}
use switcher_c.Main.{serve_all, shut_down}
use switcher_c.ParseConfig.File.{BusSection, file_entries, BussesFit, HasMemory}
use switcher_c.ParseConfig.Made.{parse_config-held}
use switcher_c.ParseConfig.Whole.{parse_config-Described}
use switcher_c.ParseConfig.{Entry, parse_config}
use switcher_c.Tables.Blocks.{dev_blocks, bus_blocks, held}
use switcher_c.World.Weight.{calls, weigh_calls, sum, sum-zero}
use switcher_c.Tables.Discard.{CanDiscard, by_driver}
use switcher_c.Tables.Frees.{data_of, dev_data_blocks}
use switcher_c.Tables.Makes.{io_init-makes}
use switcher_c.Tables.Prepared.{Grants, IsPreparedBus}
use switcher_c.Tables.Start.{io_init-Opens}
use switcher_c.Tables.Stoppable.{CanStop-wiring, IsValid-CanStop, described-CanDiscard}
use switcher_c.Tables.{drivers}
use switcher_c.World.{Object, Io, Env, World, and_then, ◌>>=◌}
use switcher_c.World.Returns.{Returns, bind, weaken, Returns-both}

abbrev nothing : Object → ℕ
nothing _ = 0

dev_blocks-nothing : (o : Option I2cLinuxDevData) → dev_blocks (calls nothing nothing) o ≡ 0
dev_blocks-nothing none = refl
dev_blocks-nothing (some _) = refl

bus_blocks-nothing : (o : Option I2cLinuxBusData) → bus_blocks (calls nothing nothing) o ≡ 0
bus_blocks-nothing none = refl
bus_blocks-nothing (some _) = refl

data_of-nothing : (h : Option DevDrv) (o : Option Mcp23017Data) → data_of nothing h o ≡ 0
data_of-nothing none o = refl
data_of-nothing (some mcp23017) none = refl
data_of-nothing (some mcp23017) (some _) = refl
data_of-nothing (some pcf8574) o = refl
data_of-nothing (some piface) o = refl

held-nothing : (busses : List IoBus) → sum (held (calls nothing nothing)) busses ≡ 0
held-nothing busses =
    sum-zero {P = λ _. Unit {0}} (held (calls nothing nothing)) busses
      (λ bus _. omega (
        arith,
        bus_blocks-nothing bus.bus_data,
        sum-zero {P = λ _. Unit {0}} (λ dev. dev_blocks (calls nothing nothing) dev.dev_bus_data)
            bus.devices (λ dev _. dev_blocks-nothing dev.dev_bus_data) (All-any bus.devices),
      ))
      (All-any busses)

data-nothing : (busses : List IoBus) → sum (dev_data_blocks nothing) busses ≡ 0
data-nothing busses =
    sum-zero {P = λ _. Unit {0}} (dev_data_blocks nothing) busses
      (λ bus _.
        let counted : List IoDev = take (pos_part bus.num_devices) bus.devices in
        sum-zero {P = λ _. Unit {0}} (λ dev. data_of nothing dev.drv_handle dev.dev_data) counted
          (λ dev _. data_of-nothing dev.drv_handle dev.dev_data) (All-any counted))
      (All-any busses)

-- The configuration is read and opened, serves the requests, and is shut down.
unfoldable pub run_once :
    Bool → Bytes → List Entry → List (Connection × MgEvent) → IoConfig → Io IoConfig
run_once running filename entries requests config = do
  (_, read) ← parse_config drivers filename (some entries) config
  (_, opened) ← io_init drivers read
  served ← serve_all requests opened
  shut_down running served

module _ (env : Env) (memory : HasMemory env) (g : Object → ℕ)
    (requests : List (Connection × MgEvent))
    (accepted : All (λ (conn, event). Acceptable conn event) requests) where
  abbrev Made : World → World → ℕ → Type 0
  Made w w' n =
      (weigh_calls g nothing w'.log ≡ n + weigh_calls g nothing w.log)
      × (weigh_calls nothing g w'.log ≡ weigh_calls nothing g w.log)

  open_and_close :
      (running : Bool) (c : IoConfig) (w0 w : World)
      → IsValid c
      → First IsPreparedBus (pos_part c.num_busses) c.busses
      → All CanDiscard c.busses
      → Made w0 w (sum (held (calls g g)) c.busses)
      → Returns
          (λ _ w'.
            weigh_calls g nothing w'.log + weigh_calls nothing g w0.log
            ≡ weigh_calls nothing g w'.log + weigh_calls g nothing w0.log)
          (and_then
            (io_init drivers c env w)
            λ (_, c2) w2. and_then (serve_all requests c2 env w2) λ c3. shut_down running c3 env)
  open_and_close running c w0 w valid prepared can (made, freed) =
      bind
        (Returns-both
          (io_init-Opens CanDiscard (λ bus o. by_driver o.driver o.size) env c w grants valid
            prepared can)
          (Returns-both (io_init-makes env grants g nothing c w valid prepared)
            (io_init-makes env grants nothing g c w valid prepared)))
        λ (_, c2) w2 ((_, (serves, opened, can2), k), ((_, made2), (kept, freed2))).
          let stop = IsValid-CanStop c2 serves.valid opened can2 in
          bind
            (quiet-Returns g nothing env w2 (serve_all-KeepsBlocks g nothing requests c2) (
              quiet-Returns nothing g env w2 (serve_all-KeepsBlocks nothing g requests c2)
                (serve_all-Serves requests c2 env w2 accepted serves k)))
            λ c3 w3 (((serves3, _, wired), same_freed), same_made).
              let stop3 = CanStop-wiring c2 c3 wired stop in
              weaken
                (Returns-both (shut_down-frees c3 env g nothing stop3 running w3)
                  (shut_down-frees c3 env nothing g stop3 running w3))
                λ _ w4 (m4, f4). omega (
                  arith,
                  kept,
                  made,
                  freed,
                  made2,
                  freed2,
                  same_made,
                  same_freed,
                  m4,
                  f4,
                  all_blocks-wiring g c2 c3 serves serves3 wired,
                  held-nothing c3.busses,
                  data-nothing (take (pos_part c3.num_busses) c3.busses),
                  held-nothing c2.busses,
                  data-nothing (take (pos_part c2.num_busses) c2.busses),
                )
    where
      grants : Grants env
      grants = record { granted = λ l. memory.granted l Object.mcp23017_object }

  -- Every block that a run makes for the configuration and its devices is given back. On an empty
  -- configuration whose buses have neither devices nor drivers, with a file as for
  -- `parse_config-Described`, any sequence of acceptable requests (as in `serve_all-Serves`), and
  -- memory for every block: `parse_config`, `io_init`, the requests, and the shutdown of server
  -- and devices, one after the other, end without undefined behaviour, and for any weight of the
  -- kinds of blocks their calls of `malloc` weigh what their calls of `free` weigh.
  pub run_once-Balanced :
      (running : Bool) (filename : Bytes) (bs : List BusSection) (c : IoConfig) (w : World)
      → c.num_busses ≡ pos 0
      → length c.busses ≡ max_busses
      → All (λ bus. IsClearBus bus × NoDriver bus) c.busses
      → length bs ≤ max_busses
      → BussesFit [] bs
      → Returns
          (λ _ w'.
            weigh_calls g nothing w'.log + weigh_calls nothing g w.log
            ≡ weigh_calls nothing g w'.log + weigh_calls g nothing w.log)
          (run_once running filename (file_entries bs) requests c env w)
  unfolding run_once
  run_once-Balanced running filename bs c w none_yet size all le fit =
      let clear =
        All-weaken (λ bus. IsClearBus bus × NoDriver bus) IsClearBus c.busses (λ b p. p.0) all in
      bind
        (Returns-both (parse_config-Described env memory filename bs c w none_yet size clear le fit)
          (Returns-both
            (parse_config-held env g nothing filename bs c w memory none_yet size clear le fit)
            (parse_config-held env nothing g filename bs c w memory none_yet size clear le fit)))
        λ (_, c1) w1 ((_, n, valid, prepared, _, others), (made, none_made)).
          open_and_close running c1 w w1 valid prepared
            (described-CanDiscard (length bs) c c1 all valid
              (subst (λ m. First IsPreparedBus m c1.busses) (ap pos_part n) prepared) others)
            (made, omega (arith, none_made, held-nothing c1.busses))
