-- ===== src/Main/Life.antt =====
-- src/main.c with the parts below it: the set-up from a configuration file.
use mathlib.Core.Path.{subst}
use switcher_c.Base.{
  ◌≡◌, ap, none, ◌⊎◌, ◌≤◌, ◌<◌, refl, some, true, false, Bool, Option, List, [], ◌∷◌, inl, inr,
  lt→ltb,
}
use switcher_c.Base.Int.{ℤ, pos_part}
use switcher_c.Base.Lists.{All, All-weaken, First, length}
use switcher_c.Base.Text.{Bytes}
use switcher_c.CommandLine.{CommandLine, HttpOptions, str_conf_len, conf_string, option_strings}
use switcher_c.Config.{IoBus, IoConfig, IsValid, max_busses}
use switcher_c.Daemon.{PidFile}
use switcher_c.Daemon.Instance.{daemonize-spi}
use switcher_c.Http.{start_http_server, set_options}
use switcher_c.IoCore.Init.{HasArrays, IsClearBus, conf_init-drivers}
use switcher_c.IoCore.Ready.{Serves}
use switcher_c.Main.{Program, cnt_option, start_up, start_serving, daemonize_if}
use switcher_c.ParseConfig.File.{BusSection, file_entries, BussesFit, HasMemory}
use switcher_c.ParseConfig.Whole.{parse_config-Described}
use switcher_c.ParseConfig.{Entry, validate_config}
use switcher_c.Tables.Ready.{contract}
use switcher_c.Tables.Prepared.{Grants, IsPreparedBus}
use switcher_c.Tables.Start.{io_init-Opens}
use switcher_c.Tables.Discard.{CanDiscard, by_driver}
use switcher_c.Tables.Stoppable.{IsValid-CanStop, CanStop, described-CanDiscard}
use switcher_c.Tables.{drivers}
use switcher_c.World.{Object, Env, World, Spi, ok}
use switcher_c.World.Fate.{Fate, goes_on, exits, if_alive}
use switcher_c.World.Returns.{Returns, returns, bind, weaken}

-- The command line's texts end inside their fields.
pub record Fits (line : CommandLine) : Type 0 where
  pub path_fits : length line.config_path < str_conf_len
  pub name : Bytes
  pub port : Bytes
  pub others : HttpOptions
  pub options : line.http_options ≡ some name ∷ some port ∷ others
  pub name_fits : length name < str_conf_len
  pub port_fits : length port < str_conf_len

-- The set-up went through, or the daemon's processes ended in it.
abbrev pub Started : Option Spi → CommandLine → Fate Program → World → Type 0
Started s line o w' =
    (((p : Program) × (o ≡ goes_on p)
        × Serves drivers contract s p.io_configuration
        × CanStop p.io_configuration
        × (p.http_server ≡ true)
        × (p.http_options ≡ line.http_options))
      ⊎ ((line.run_as_daemon ≡ true) × ((code : ℤ) × (o ≡ exits code))))
    × (w'.spi ≡ s)

conf_string-fits :
    (t : Bytes) (env : Env) (w : World) → length t < str_conf_len → conf_string t env w ≡ ok t w
unfolding conf_string
conf_string-fits t env w lt = rw (lt→ltb _ _ lt) refl

option_strings-two :
    (line : CommandLine) (env : Env) (w : World) (fits : Fits line)
    → option_strings cnt_option line.http_options env w ≡ ok (fits.name ∷ fits.port ∷ []) w
unfolding option_strings
option_strings-two line env w fits =
    rw (fits.options, conf_string-fits fits.name env w fits.name_fits)
      (rw (conf_string-fits fits.port env w fits.port_fits) refl)

daemonize_if-Returns :
    (d : Bool) (s : Option Spi) (env : Env) (w : World)
    → w.spi ≡ s
    → Returns
        (λ o w'.
          (((pid : PidFile) × (o ≡ goes_on pid)) ⊎ ((d ≡ true) × ((code : ℤ) × (o ≡ exits code))))
          × (w'.spi ≡ s))
        (daemonize_if d env w)
unfolding daemonize_if
daemonize_if-Returns false s env w e = returns (inl (_, refl), e)
daemonize_if-Returns true s env w e = weaken (daemonize-spi env s w e) λ o w' e'. (alive o, e')
  where
    alive :
        (o : Fate PidFile)
        → ((pid : PidFile) × (o ≡ goes_on pid)) ⊎ ((true ≡ true) × ((code : ℤ) × (o ≡ exits code)))
    alive (goes_on pid) = inl (pid, refl)
    alive (exits code) = inr (refl, (code, refl))

-- Static storage leaves the pointer to a bus's driver NULL.
abbrev pub NoDriver : IoBus → Type 0
NoDriver bus = bus.drv_handle ≡ none

module _ (env : Env) (memory : HasMemory env) (line : CommandLine) (fits : Fits line) where
  start_serving-Started :
      (pid : PidFile) (c : IoConfig) (w : World)
      → IsValid c
      → First IsPreparedBus (pos_part c.num_busses) c.busses
      → All CanDiscard c.busses
      → Returns (Started w.spi line) (start_serving line pid c env w)
  unfolding start_serving start_http_server set_options
  start_serving-Started pid c w valid prepared can =
      bind
        (io_init-Opens CanDiscard (λ bus o. by_driver o.driver o.size) env c w grants valid prepared
          can)
        λ (rc, c') w1 (e, (serves, opened, can'), spi). rw e (
          rw (option_strings-two line env w1 fits) (
            returns (
              inl (_, refl, serves, IsValid-CanStop c' serves.valid opened can', refl, refl),
              spi,
            )))
    where
      grants : Grants env
      grants = record { granted = λ l. memory.granted l Object.mcp23017_object }

  -- The set-up, from the variables of a command line that fits, on a configuration whose arrays have
  -- their declared sizes and whose buses have no driver, with a file as for
  -- `parse_config-Described` under the path, and with memory for every block.
  pub start_up-Serves :
      (files : Bytes → Option (List Entry)) (bs : List BusSection) (c : IoConfig) (w : World)
      → HasArrays c
      → All NoDriver c.busses
      → files line.config_path ≡ some (file_entries bs)
      → length bs ≤ max_busses
      → BussesFit [] bs
      → Returns (Started w.spi line) (start_up line files c env w)
  unfolding start_up validate_config
  start_up-Serves files bs c w arrays unset found le fit =
      bind (conf_init-drivers (λ o. o ≡ none) c env w arrays unset)
        λ (rc, c1) w1 (e0, same, cnt, size, clear).
          rw (e0, same)
            (rw (conf_string-fits line.config_path env w fits.path_fits, found)
              (bind
                (parse_config-Described env memory line.config_path bs c1 w cnt size
                  (All-weaken (λ bus. IsClearBus bus × NoDriver bus) IsClearBus c1.busses
                    (λ bus p. p.0) clear)
                  le fit)
                λ (rc', c2) w2 (e1, n, valid, prepared, spi, others). rw e1 (
                  bind (daemonize_if-Returns line.run_as_daemon w.spi env _ spi)
                    λ o w3 (alive, spi').
                      go_on c2 o w3 valid prepared
                        (described-CanDiscard (length bs) c1 c2 clear valid
                          (subst (λ m. First IsPreparedBus m c2.busses) (ap pos_part n) prepared)
                          others)
                        alive spi')))
    where
      go_on :
          (c2 : IoConfig) (o : Fate PidFile) (w3 : World)
          → IsValid c2
          → First IsPreparedBus (pos_part c2.num_busses) c2.busses
          → All CanDiscard c2.busses
          → ((pid : PidFile) × (o ≡ goes_on pid))
            ⊎ ((line.run_as_daemon ≡ true) × ((code : ℤ) × (o ≡ exits code)))
          → w3.spi ≡ w.spi
          → Returns (Started w.spi line) (if_alive o (λ pid. start_serving line pid c2) env w3)
      go_on c2 o w3 valid prepared can (inl (pid, e)) spi = rw e (
          subst (λ s. Returns (Started s line) (start_serving line pid c2 env w3)) spi
            (start_serving-Started pid c2 w3 valid prepared can))
      go_on c2 o w3 valid prepared can (inr (d, (code, e))) spi =
          rw e (returns (inr (d, (code, refl)), spi))
