-- ===== src/Main/Stop.antt =====
-- src/main.c with the parts below it: the signal handler.
use switcher_c.Base.{
  ℕ, zero, suc, ◌≡◌, ◌∙◌, ◌≤◌, refl, Bool, true, false, Option, none, some, [], ◌∷◌, inl, inr,
  Bool-cases, arith,
}
use switcher_c.Base.Int.{ℤ, pos, pos_part, eqb_ℤ}
use switcher_c.Base.Lists.{All, All-replicate, First, length, replicate}
use switcher_c.Config.{IoConfig, max_busses}
use switcher_c.Http.{stop_http_server}
use switcher_c.IoCore.Lifecycle.{io_deinit, conf_deinit}
use switcher_c.CommandLine.{HttpOptions}
use switcher_c.Daemon.{PidFile, pid_file}
use switcher_c.Main.{Program, shut_down, free_options, release_pid_file, signal_handler}
use switcher_c.Tables.Discard.{HasNoBlocks, CanDiscard, conf_deinit-HasNoBlocks}
use switcher_c.Tables.OpenBus.{IsOpenBus}
use switcher_c.Tables.Shutdown.{io_deinit-CanDiscard}
use switcher_c.Tables.{drivers}
use switcher_c.World.{Object, Event, Log, Env, World, Spi, ok, and_then, log_event}
use switcher_c.World.Returns.{Returns, returns, bind}

module _ (c : IoConfig) (env : Env) (size : length c.busses ≡ max_busses)
    (bound : pos_part c.num_busses ≤ max_busses)
    (opened : First IsOpenBus (pos_part c.num_busses) c.busses)
    (can : All CanDiscard c.busses) where
  devices-HasNoBlocks :
      (w : World)
      → Returns
          (λ c' w'. (c'.num_busses ≡ pos 0) × All HasNoBlocks c'.busses × (w'.spi ≡ w.spi))
          (and_then
            (io_deinit drivers c env w)
            (λ p w'. and_then (conf_deinit drivers p.1 env w') (λ q w''. ok q.1 w'')))
  devices-HasNoBlocks w =
      bind (io_deinit-CanDiscard env c w (omega (arith, size)) opened can) λ (rc, c1) w1 (l, a, e).
        bind (conf_deinit-HasNoBlocks env c1 w1 (l ∙ size) a)
          λ (rc', c2) w2 (_, n, b, e'). returns (n, b, e' ∙ e)

  -- On a configuration of eight buses whose counted ones are I2C buses with data and with PCF8574
  -- or MCP23017 devices, and whose buses each have the I2C bus driver or no driver and no block,
  -- with arrays of the declared size, the shutdown (the server, if it runs, then `io_deinit` and
  -- `conf_deinit`) ends without undefined behaviour, whatever the kernel answers, and keeps the
  -- SPI state. It leaves no bus counted, and no bus and no device with a block of a bus driver.
  pub shut_down-HasNoBlocks :
      (running : Bool) (w : World)
      → Returns
          (λ c' w'. (c'.num_busses ≡ pos 0) × All HasNoBlocks c'.busses × (w'.spi ≡ w.spi))
          (shut_down running c env w)
  unfolding shut_down stop_http_server
  shut_down-HasNoBlocks true w = devices-HasNoBlocks _
  shut_down-HasNoBlocks false w = devices-HasNoBlocks _

-- The blocks in the array of options, and the options given back in a log.
abbrev pub option_blocks : HttpOptions → ℕ
option_blocks [] = 0
option_blocks (none ∷ options) = option_blocks options
option_blocks (some _ ∷ options) = suc (option_blocks options)

abbrev pub free_each : ℕ → Log → Log
free_each zero l = l
free_each (suc n) l = free_each n (Event.free Object.option_object ∷ l)

pub free_options-all :
    (options : HttpOptions) (env : Env) (w : World)
    → free_options options env w
      ≡ ok
          (replicate (length options) none)
          (record w { log = free_each (option_blocks options) w.log })
unfolding free_options
free_options-all [] env w = refl
free_options-all (none ∷ options) env w = rw (free_options-all options env w) refl
free_options-all (some block ∷ options) env w =
    rw (free_options-all options env (log_event _ w)) refl

release_pid_file-Closed :
    (pid : PidFile) (env : Env) (w : World)
    → Returns (λ pid' w'. (pid'.stream_pid ≡ false) × (w'.spi ≡ w.spi)) (release_pid_file pid env w)
unfolding release_pid_file
release_pid_file-Closed pid env w = elim (Bool-cases pid.stream_pid) [
  | inl opened ↦
      rw opened (elim (Bool-cases (eqb_ℤ (env.ret w.log (Event.flock_unlock pid.fh_pid)) (pos 0))) [
        | inl good ↦ rw good (returns (refl, refl))
        | inr bad ↦ rw bad (returns (refl, refl))
      ])
  | inr closed ↦ rw closed (returns (refl, refl))
]

-- The state in which the signal handler leaves the program, and its last two calls.
pub record Stopped (s : Option Spi) (result : ℤ × Program) (w' : World) : Type 0 where
  pub code : result.0 ≡ pos 0
  pub no_server : result.1.http_server ≡ false
  pub no_busses : result.1.io_configuration.num_busses ≡ pos 0
  pub no_blocks : All HasNoBlocks result.1.io_configuration.busses
  pub no_options : All (λ block. block ≡ none) result.1.http_options
  pub no_stream : result.1.pid.stream_pid ≡ false
  pub same_spi : w'.spi ≡ s
  pub earlier : Log
  pub last_calls : w'.log ≡ Event.closelog ∷ Event.unlink pid_file ∷ earlier

-- On a configuration of eight buses whose counted ones are I2C buses with data and with PCF8574
-- or MCP23017 devices, and whose buses each have the I2C bus driver or no driver and no block,
-- with arrays of the declared size, the signal handler ends without undefined behaviour, whatever
-- the kernel answers, with the exit code 0, and keeps the SPI state. It leaves no server, no bus
-- counted, no bus and no device with a block of a bus driver, every element of the array of
-- options NULL, and the stream of the PID file closed; its last two calls are the `unlink` of
-- `switcher.pid` and `closelog`.
pub signal_handler-Stopped :
    (p : Program) (env : Env) (w : World)
    → length p.io_configuration.busses ≡ max_busses
    → pos_part p.io_configuration.num_busses ≤ max_busses
    → First IsOpenBus (pos_part p.io_configuration.num_busses) p.io_configuration.busses
    → All CanDiscard p.io_configuration.busses
    → Returns (Stopped w.spi) (signal_handler p env w)
unfolding signal_handler
signal_handler-Stopped p env w size bound opened can =
    bind (shut_down-HasNoBlocks p.io_configuration env size bound opened can p.http_server w)
      λ config w1 (n, b, e). rw (free_options-all p.http_options env w1) (
        bind (release_pid_file-Closed p.pid env _) λ pid w2 (closed, e'). returns (record {
          code = refl;
          no_server = refl;
          no_busses = n;
          no_blocks = b;
          no_options = All-replicate (λ block. block ≡ none) (length p.http_options) none refl;
          no_stream = closed;
          same_spi = e' ∙ e;
          earlier = w2.log;
          last_calls = refl;
        }))
