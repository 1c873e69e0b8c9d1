-- ===== src/Main/Session.antt =====
-- src/main.c: a whole session, from the command line over the requests to the signal.
use mathlib.Core.Path.{subst}
use switcher_c.Base.{
  ◌≡◌, ◌≤◌, ◌<◌, ◌⊎◌, refl, true, false, inl, inr, none, some, Bool, Option, List, [],
  if◌then◌else◌,
}
use switcher_c.Base.Int.{ℤ}
use switcher_c.Base.Lists.{All, length}
use switcher_c.Base.Text.{Bytes}
use switcher_c.CommandLine.Last.{has_usage, has_d}
use switcher_c.CommandLine.{Opt, str_conf_len}
use switcher_c.Config.{IoConfig, max_busses}
use switcher_c.Http.{Connection, MgEvent}
use switcher_c.IoCore.Init.{HasArrays}
use switcher_c.Main.Life.{NoDriver}
use switcher_c.Main.Requests.{Acceptable, serve_all-Serves}
use switcher_c.Main.Stop.{Stopped, signal_handler-Stopped}
use switcher_c.Main.Whole.{Installs, conf_path, conf_port, line_of, main-Serves}
use switcher_c.Main.{Program, main, serve_all, signal_handler}
use switcher_c.ParseConfig.File.{BusSection, file_entries, BussesFit, HasMemory}
use switcher_c.ParseConfig.{Entry}
use switcher_c.IoCore.Ready.{Serves}
use switcher_c.Tables.{drivers}
use switcher_c.Tables.Ready.{contract}
use switcher_c.Tables.Stoppable.{CanStop, CanStop-wiring}
use switcher_c.World.{Env, World, Spi, Io, pure, ◌>>=◌}
use switcher_c.World.Fate.{Fate, exits, goes_on}
use switcher_c.World.Returns.{Returns, returns, bind}

-- The requests on what `main` has set up, then the signal. The result is the exit code, and the
-- static variables at the exit behind the signal.
unfoldable pub serve_and_stop : List (Connection × MgEvent) → Fate Program → Io (ℤ × Option Program)
serve_and_stop requests (exits code) = pure (code, none)
serve_and_stop requests (goes_on p) = do
  config ← serve_all requests p.io_configuration
  (code, p') ← signal_handler (record p { io_configuration = config })
  pure (code, some p')

unfoldable pub session :
    Bytes
    → List Opt
    → (Bytes → Option (List Entry))
    → IoConfig
    → List (Connection × MgEvent)
    → Io (ℤ × Option Program)
session arg0 opts files config requests = do
  fate ← main arg0 opts files config
  serve_and_stop requests fate

module _ (env : Env) (s : Option Spi) (requests : List (Connection × MgEvent))
    (accepted : All (λ (conn, event). Acceptable conn event) requests) where
  -- After the signal nothing is left; without it, the process has exited in the set-up.
  abbrev Ended : Bool → ℤ × Option Program → World → Type 0
  Ended daemon (code, left) w' =
      ((p : Program) × (left ≡ some p) × Stopped s (code, p) w') ⊎ ((daemon ≡ true) × (left ≡ none))

  serve_and_stop-Stopped :
      (p : Program) (daemon : Bool) (w : World)
      → Serves drivers contract s p.io_configuration
      → CanStop p.io_configuration
      → w.spi ≡ s
      → Returns (Ended daemon) (serve_and_stop requests (goes_on p) env w)
  unfolding serve_and_stop
  serve_and_stop-Stopped p daemon w serves stop e =
      bind (serve_all-Serves requests p.io_configuration env w accepted serves e)
        λ c w1 (_, e1, wired).
          let stop' = CanStop-wiring p.io_configuration c wired stop in
          bind
            (signal_handler-Stopped (record p { io_configuration = c }) env w1 stop'.size
              stop'.bound stop'.opened stop'.can)
            λ (code, p') w2 stopped.
              returns (inl (p', refl, subst (λ t. Stopped t (code, p') w2) e1 stopped))

-- A whole session, with memory for every block, signal handlers that can be installed, a command
-- line without `-h` and without an unknown option whose path and port have less than 256 bytes, a
-- configuration whose arrays have their declared sizes and whose buses have no driver, as static
-- storage leaves them, under the path a file of up to eight I2C buses with up to 128 PCF8574 or
-- MCP23017 devices each, whose sections are named as the handler expects them, and any sequence
-- of acceptable requests (as in `serve_all-Serves`): `main`, the requests and the signal handler
-- run to their end without undefined behaviour, whatever the kernel and the devices answer
-- otherwise. The process exits with the code 0, no server, no bus and no block of a bus driver is
-- left, every option is NULL, and the stream of the PID file is closed; only with `-d` may it
-- have exited in the set-up instead.
pub session-Stopped :
    (env : Env) (arg0 : Bytes) (opts : List Opt) (files : Bytes → Option (List Entry))
    (bs : List BusSection) (c : IoConfig) (requests : List (Connection × MgEvent)) (w : World)
    → HasMemory env
    → Installs env
    → has_usage opts ≡ false
    → length (conf_path opts) < str_conf_len
    → length (conf_port opts) < str_conf_len
    → HasArrays c
    → All NoDriver c.busses
    → files (conf_path opts) ≡ some (file_entries bs)
    → length bs ≤ max_busses
    → BussesFit [] bs
    → All (λ (conn, event). Acceptable conn event) requests
    → Returns
        (λ (code, left) w'.
          ((p : Program) × (left ≡ some p) × Stopped w.spi (code, p) w')
          ⊎ ((has_d opts ≡ true) × (left ≡ none)))
        (session arg0 opts files c requests env w)
unfolding session serve_and_stop
session-Stopped env arg0 opts files bs c requests w memory can known path_fits port_fits arrays
      unset found le fit accepted =
    bind
      (main-Serves env memory arg0 opts files bs c w can known path_fits port_fits arrays unset
        found le fit)
      λ fate w1 (started, e). after fate w1 started e
  where
    is_daemon : (b : Bool) → (if b then true else false) ≡ true → b ≡ true
    is_daemon true h = refl
    is_daemon false h = cc

    after :
        (fate : Fate Program) (w1 : World)
        → ((p : Program) × (fate ≡ goes_on p)
            × Serves drivers contract w.spi p.io_configuration
            × CanStop p.io_configuration
            × (p.http_server ≡ true)
            × (p.http_options ≡ (line_of opts).http_options))
          ⊎ (((if has_d opts then true else false) ≡ true) × ((code : ℤ) × (fate ≡ exits code)))
        → w1.spi ≡ w.spi
        → Returns
            (Ended env w.spi requests accepted (has_d opts))
            (serve_and_stop requests fate env w1)
    after fate w1 (inl (p, is, serves, stop, _, _)) e =
        rw is (serve_and_stop-Stopped env w.spi requests accepted p (has_d opts) w1 serves stop e)
    after fate w1 (inr (d, (code, is))) e = rw is (returns (inr (is_daemon (has_d opts) d, refl)))
