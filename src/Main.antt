-- ===== src/Main.antt =====
-- src/main.c: the order in which the program sets itself up, serves and shuts down. What `getopt`
-- returns, the files' entries and mongoose's events are arguments.
pub mod Life
pub mod Requests
pub mod Whole
pub mod Session
pub mod Stop
pub mod Frees
pub mod Balance
pub mod Quiet
pub mod Wired
use switcher_c.Base.{ℕ, Bool, true, false, not, Option, none, some, List, [], ◌∷◌, if◌then◌else◌}
use switcher_c.Base.Int.{ℤ, pos, minus_one, eqb_ℤ}
use switcher_c.Base.Text.{Bytes, text}
use switcher_c.CommandLine.{
  Opt, HttpOptions, CommandLine, conf_string, default_options, read_options, option_strings,
}
use switcher_c.Config.{IoConfig}
use switcher_c.Daemon.{PidFile, daemonize, pid_file}
use switcher_c.Http.{Connection, MgEvent, event_handler, start_http_server, stop_http_server}
use switcher_c.IoCore.{conf_init}
use switcher_c.IoCore.Lifecycle.{io_init, io_deinit, conf_deinit}
use switcher_c.ParseConfig.{Entry, parse_config, validate_config}
use switcher_c.Tables.{drivers}
use switcher_c.World.{Object, Event, Signal, Io, pure, ◌>>=◌, ◌>>◌, call, emit}
use switcher_c.World.Fate.{Fate, goes_on, exit_success, exit_failure, leave, quit, if_alive}

-- The static variables; of the server, whether it is there.
pub record Program : Type 0 where
  pub http_server : Bool
  pub io_configuration : IoConfig
  pub http_options : HttpOptions
  pub pid : PidFile

-- The value of `cnt_option` behind the two elements that are added.
abbrev pub cnt_option : ℕ
cnt_option = 2

-- The end of the set-up: the devices, then the server with the options.
unfoldable pub start_serving : CommandLine → PidFile → IoConfig → Io (Fate Program)
start_serving line pid config = do
  (rc, config') ← io_init drivers config
  if eqb_ℤ rc exit_failure then quit (text "Could not initialize IO subsystem.") else (do
    options ← option_strings cnt_option line.http_options
    start_http_server options
    pure (
        goes_on (record {
          http_server = true;
          io_configuration = config';
          http_options = line.http_options;
          pid = pid;
        })))

-- `if (run_as_daemon) daemonize();`, from the initial values of the PID file's variables.
unfoldable pub daemonize_if : Bool → Io (Fate PidFile)
daemonize_if run_as_daemon =
    if run_as_daemon
    then daemonize
    else pure (goes_on (record { stream_pid = false; fh_pid = minus_one }))

-- From `conf_init` to the running server; `files` has the entries of a file, if it is there.
unfoldable pub start_up : CommandLine → (Bytes → Option (List Entry)) → IoConfig → Io (Fate Program)
start_up line files config = do
  (rc, c1) ← conf_init config
  if eqb_ℤ rc exit_failure
      then leave (text "Error initializing the bus configuration data structure.\n")
      else (do
        path ← conf_string line.config_path
        (rc', c2) ← parse_config drivers path (files path) c1
        if eqb_ℤ rc' exit_failure
            then leave (text "Error parsing the configuration file.\n")
            else if eqb_ℤ (validate_config c2) exit_failure
            then leave (text "Illegal configuration. Please check values.\n")
            else (do
              emit (Event.openlog (text "switcher"))
              alive ← daemonize_if line.run_as_daemon
              if_alive alive (λ pid. start_serving line pid c2)))

-- Both handlers, the second only if the first could be installed; whether both were.
unfoldable pub install_handlers : Io Bool
install_handlers = do
  first ← call (Event.handle_signal Signal.sigint)
  if eqb_ℤ first minus_one then pure false else (do
    second ← call (Event.handle_signal Signal.sigterm)
    pure (not (eqb_ℤ second minus_one)))

-- `main`, up to its poll loop.
unfoldable pub main :
    Bytes → List Opt → (Bytes → Option (List Entry)) → IoConfig → Io (Fate Program)
main arg0 opts files config = do
  line ← default_options
  installed ← install_handlers
  if installed
      then (do
        alive ← read_options arg0 opts line
        if_alive alive (λ line'. start_up line' files config))
      else leave (text "Could not install signal handler for SIGINT.\n")

-- The poll loop: the requests that mongoose hands over, one after the other.
unfoldable pub serve_all : List (Connection × MgEvent) → IoConfig → Io IoConfig
serve_all [] config = pure config
serve_all ((conn, event) ∷ rest) config = do
  (rc, config') ← event_handler drivers conn event config
  serve_all rest config'

-- What the signal handler does to server and devices; the flag says whether the server runs.
unfoldable pub shut_down : Bool → IoConfig → Io IoConfig
shut_down running config = do
  if running
      then (do
        emit (Event.put_syslog (text "Shutting down HTTP server."))
        stop_http_server
        pure tt)
      else pure tt
  emit (Event.put_syslog (text "Shutting down IO subsystem."))
  (rc, c1) ← io_deinit drivers config
  (rc', c2) ← conf_deinit drivers c1
  pure c2

-- The loop over the array of options.
unfoldable pub free_options : HttpOptions → Io HttpOptions
free_options [] = pure []
free_options (none ∷ options) = do rest ← free_options options; pure (none ∷ rest)
free_options (some block ∷ options) = do
  emit (Event.free Object.option_object)
  rest ← free_options options
  pure (none ∷ rest)

unfoldable pub release_pid_file : PidFile → Io PidFile
release_pid_file pid =
    if pid.stream_pid
    then (do
      rc ← call (Event.flock_unlock pid.fh_pid)
      if eqb_ℤ rc (pos 0)
          then pure tt
          else emit (Event.put_syslog (text "Could not unlock PID file."))
      emit Event.fclose_pid
      pure (record pid { stream_pid = false }))
    else pure pid

-- The signal handler, with the code that it exits with.
unfoldable pub signal_handler : Program → Io (ℤ × Program)
signal_handler p = do
  config ← shut_down p.http_server p.io_configuration
  options ← free_options p.http_options
  pid ← release_pid_file p.pid
  emit (Event.unlink pid_file)
  emit Event.closelog
  pure (
    exit_success,
    record { http_server = false; io_configuration = config; http_options = options; pid = pid },
  )
