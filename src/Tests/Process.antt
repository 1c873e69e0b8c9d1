-- ===== src/Tests/Process.antt =====
-- src/main.c: the theorems on the process, from the command line to the signal handler, applied.
use switcher_c.Base.{◌+◌, ◌≡◌, ◌⊎◌, refl, arith, true, false, Option, none, some, List, [], ◌∷◌}
use switcher_c.Base.Int.{ℤ, pos, minus_one}
use switcher_c.Base.Lists.{replicate, All-replicate}
use switcher_c.Base.Text.{Bytes, text}
use switcher_c.CommandLine.Last.{command_line, read_options-Last}
use switcher_c.CommandLine.{Opt, opt_c, opt_p, opt_d, CommandLine, read_options}
use switcher_c.Daemon.Instance.{pid_writes, daemonize-Ends}
use switcher_c.Daemon.Verdict.{verdict, daemonize-Judged}
use switcher_c.Daemon.{daemonize}
use switcher_c.Main.Session.{session, session-Stopped}
use switcher_c.Main.Requests.{auth}
use switcher_c.Http.{mg_auth, mg_request}
use switcher_c.IoCore.Init.{HasArrays, IsClearBus}
use switcher_c.Main.Balance.{run_once, run_once-Balanced}
use switcher_c.Main.Life.{NoDriver}
use switcher_c.Main.Stop.{Stopped, signal_handler-Stopped}
use switcher_c.Main.Frees.{signal_handler-frees}
use switcher_c.World.Weight.{weigh_calls}
use switcher_c.Tables.Stoppable.{CanStop}
use switcher_c.Main.{Program, signal_handler}
use switcher_c.ParseConfig.File.{file_entries}
use switcher_c.ParseConfig.{Entry}
use switcher_c.Tables.Discard.{CanDiscard, by_driver}
use switcher_c.Tests.Life.{
  conn, conn-Acceptable, rich_env-HasMemory, file, file-BussesFit, free_bus-CanDiscard,
  bus-IsOpenBus, free_bus-IsClearBus,
}
use switcher_c.Tests.{cleared, rich_env, env, start, config, free_bus}
use switcher_c.Trace.Stateless.{trace_all, ask_each, trace_all-Stateless}
use switcher_c.World.{Event, Env, ok}
use switcher_c.World.Fate.{exits, goes_on, exit_code}
use switcher_c.World.Returns.{Returns}

-- The lock is held, and all else succeeds in the child.
abbrev held_answer : Event → ℤ
held_answer (Event.flock_exclusive _) = minus_one
held_answer _ = pos 0

abbrev held_env : Env
held_env = record env { ret = λ _ e. held_answer e; out = λ _ _. 11 }

daemonize-Ends_example :
    Returns
      (λ o w. ((code : ℤ) × (o ≡ exits code)) × (pid_writes w.log ≡ 0))
      (daemonize held_env start)
daemonize-Ends_example = daemonize-Ends held_env start (record { refused = λ l fh. refl })

daemonize-Judged_example :
    Returns (λ o w. exit_code o ≡ verdict held_env w.log) (daemonize held_env start)
daemonize-Judged_example = daemonize-Judged held_env start refl

read_options-Last_example :
    read_options
      (text "switcher")
      (opt_p (text "80") ∷ opt_d ∷ opt_p (text "81") ∷ [])
      (command_line (text "a.ini") (some (text "listening_port") ∷ []) (text "8080") [] false)
      env
      start
    ≡ ok
        (goes_on
          (command_line (text "a.ini") (some (text "listening_port") ∷ []) (text "81") [] true))
        start
read_options-Last_example =
    read_options-Last (text "switcher") (opt_p (text "80") ∷ opt_d ∷ opt_p (text "81") ∷ [])
      (text "a.ini") (text "listening_port") (text "8080") [] false env start

-- Every path names the one file.
abbrev files : Bytes → Option (List Entry)
files path = some (file_entries file)

abbrev line : CommandLine
line =
    command_line (text "io.ini") (some (text "listening_port") ∷ []) (text "8080")
      (replicate 126 none) true

abbrev opts : List Opt
opts = opt_c (text "io.ini") ∷ opt_p (text "8081") ∷ []

cleared-HasArrays : HasArrays cleared
cleared-HasArrays = record {
  busses_length = refl;
  devices_length = (refl, (refl, (refl, (refl, (refl, (refl, (refl, (refl, tt))))))));
}

session-Stopped_example :
    Returns
      (λ (code, left) w.
        ((p : Program) × (left ≡ some p) × Stopped none (code, p) w)
        ⊎ ((false ≡ true) × (left ≡ none)))
      (session
        (text "switcher")
        opts
        files
        cleared
        ((conn, mg_auth) ∷ (conn, mg_request) ∷ (conn, mg_request) ∷ [])
        rich_env
        start)
session-Stopped_example =
    session-Stopped rich_env (text "switcher") opts files file cleared
      ((conn, mg_auth) ∷ (conn, mg_request) ∷ (conn, mg_request) ∷ []) start rich_env-HasMemory
      (record { installed = λ l s. refl }) refl (omega arith) (omega arith) cleared-HasArrays
      (All-replicate NoDriver 8 free_bus refl) refl (omega arith) file-BussesFit
      (auth, (conn-Acceptable, (conn-Acceptable, tt)))

abbrev program : Program
program = record {
  http_server = true;
  io_configuration = config;
  http_options = line.http_options;
  pid = record { stream_pid = true; fh_pid = pos 4 };
}

program-CanStop : CanStop config
program-CanStop = record {
  size = refl;
  bound = omega arith;
  opened = (bus-IsOpenBus, tt);
  can = (by_driver refl refl, All-replicate CanDiscard 7 free_bus free_bus-CanDiscard);
}

signal_handler-Stopped_example : Returns (Stopped none) (signal_handler program env start)
signal_handler-Stopped_example =
    signal_handler-Stopped program env start refl (omega arith) program-CanStop.opened
      program-CanStop.can

-- Two options, the data of the bus, the addresses of two devices, and the data of the MCP23017.
signal_handler-frees_example :
    Returns (λ _ w. weigh_calls (λ _. 0) (λ _. 1) w.log ≡ 6) (signal_handler program env start)
signal_handler-frees_example =
    signal_handler-frees program env (λ _. 0) (λ _. 1) start program-CanStop

-- Four blocks are made and given back.
run_once-Balanced_example :
    Returns
      (λ _ w. weigh_calls (λ _. 1) (λ _. 0) w.log + 0 ≡ weigh_calls (λ _. 0) (λ _. 1) w.log + 0)
      (run_once true
        (text "io.ini")
        (file_entries file)
        ((conn, mg_auth) ∷ (conn, mg_request) ∷ [])
        cleared
        rich_env
        start)
run_once-Balanced_example =
    run_once-Balanced rich_env rich_env-HasMemory (λ _. 1)
      ((conn, mg_auth) ∷ (conn, mg_request) ∷ []) (auth, (conn-Acceptable, tt)) true (text "io.ini")
      file cleared start refl refl
      (All-replicate (λ b. IsClearBus b × NoDriver b) 8 free_bus (free_bus-IsClearBus, refl))
      (omega arith) file-BussesFit

trace_all-Stateless_example :
    trace_all
      (text "a" ∷ text "b" ∷ [])
      (record { initialized = false; env_debug = pos 0 })
      env
      start
    ≡ ask_each (text "a" ∷ text "b" ∷ []) env start
trace_all-Stateless_example = trace_all-Stateless (text "a" ∷ text "b" ∷ []) (pos 0) env start
