-- ===== src/Main/Whole.antt =====
-- src/main.c: from the command line to the running server.
use mathlib.Core.Path.{subst}
use switcher_c.Base.{
  ◌≡◌, ◌∙◌, ◌≤◌, ◌<◌, arith, refl, true, false, none, some, Option, List, [], ◌∷◌, map,
  if◌then◌else◌,
}
use switcher_c.Base.Int.{minus_one, eqb_ℤ}
use switcher_c.Base.Lists.{All, length, replicate}
use switcher_c.Base.Text.{Bytes, text}
use switcher_c.CommandLine.Last.{
  paths, ports, has_d, has_usage, last_or, command_line, read_options-Last,
}
use switcher_c.CommandLine.{
  Opt, CommandLine, str_conf_len, strncpy_conf, default_config_path, add_option_element,
  default_options,
}
use switcher_c.Config.{IoConfig, max_busses}
use switcher_c.IoCore.Init.{HasArrays}
use switcher_c.Main.Life.{Fits, NoDriver, Started, start_up-Serves}
use switcher_c.Main.{install_handlers, start_up, main}
use switcher_c.ParseConfig.File.{BusSection, file_entries, BussesFit, HasMemory}
use switcher_c.ParseConfig.{Entry}
use switcher_c.World.{Object, Event, Signal, Log, Env, World}
use switcher_c.World.Returns.{Returns, returns, bind}

-- Signal handlers can be installed.
pub record Installs (env : Env) : Type 0 where
  pub installed :
      (l : Log) (signal : Signal) → eqb_ℤ (env.ret l (Event.handle_signal signal)) minus_one ≡ false

abbrev pub conf_path : List Opt → Bytes
conf_path opts = last_or default_config_path (map strncpy_conf (paths opts))

abbrev pub conf_port : List Opt → Bytes
conf_port opts = last_or (text "8080") (map strncpy_conf (ports opts))

-- What a command line comes to, with the values that stand for options that are not given.
abbrev pub line_of : List Opt → CommandLine
line_of opts =
    command_line (conf_path opts) (some (text "listening_port") ∷ []) (conf_port opts)
      (replicate 126 none) (if has_d opts then true else false)

module _ (env : Env) (memory : HasMemory env) where
  default_options-Returns :
      (w : World)
      → Returns (λ line w'. (line ≡ line_of []) × (w'.spi ≡ w.spi)) (default_options env w)
  unfolding default_options add_option_element
  default_options-Returns w = rw (memory.granted w.log Object.option_object) (
      rw (memory.granted (Event.malloc Object.option_object ∷ w.log) Object.option_object)
        (returns (refl, refl)))

  install_handlers-Returns :
      (w : World)
      → Installs env
      → Returns (λ b w'. (b ≡ true) × (w'.spi ≡ w.spi)) (install_handlers env w)
  unfolding install_handlers
  install_handlers-Returns w can = rw (can.installed w.log Signal.sigint) (
      rw (can.installed (Event.handle_signal Signal.sigint ∷ w.log) Signal.sigterm)
        (returns (refl, refl)))

  -- With memory for every block, signal handlers that can be installed, a command line without
  -- `-h` and without an unknown option whose path and port have less than 256 bytes, a
  -- configuration whose arrays have their declared sizes and whose buses have no driver, as
  -- static storage leaves them, and under the path a file of up to eight I2C buses with up to 128
  -- PCF8574 or MCP23017 devices each, whose sections are named as the handler expects them:
  -- `main` comes to its poll loop without undefined behaviour, whatever the kernel answers
  -- otherwise. The configuration serves and meets what the signal handler needs of it, the server
  -- is there, and the options are those of the command line. Only with `-d` may the process exit
  -- instead. The SPI state is kept.
  pub main-Serves :
      (arg0 : Bytes) (opts : List Opt) (files : Bytes → Option (List Entry)) (bs : List BusSection)
      (c : IoConfig) (w : World)
      → Installs env
      → has_usage opts ≡ false
      → length (conf_path opts) < str_conf_len
      → length (conf_port opts) < str_conf_len
      → HasArrays c
      → All NoDriver c.busses
      → files (conf_path opts) ≡ some (file_entries bs)
      → length bs ≤ max_busses
      → BussesFit [] bs
      → Returns (Started w.spi (line_of opts)) (main arg0 opts files c env w)
  unfolding main
  main-Serves arg0 opts files bs c w can known path_fits port_fits arrays unset found le fit =
      bind (default_options-Returns w) λ line w1 (e1, s1). rw e1 (
        bind (install_handlers-Returns w1 can) λ b w2 (e2, s2). rw e2 (
          rw
            (
              read_options-Last arg0 opts default_config_path (text "listening_port") (text "8080")
                  (replicate 126 none) false env w2,
              known,
            )
            (subst
              (λ s. Returns (Started s (line_of opts)) (start_up (line_of opts) files c env w2))
              (s2 ∙ s1)
              (start_up-Serves env memory (line_of opts) fits files bs c w2 arrays unset found le
                fit))))
    where
      fits : Fits (line_of opts)
      fits = record {
        path_fits = path_fits;
        name = text "listening_port";
        port = conf_port opts;
        others = replicate 126 none;
        options = refl;
        name_fits = omega arith;
        port_fits = port_fits;
      }
