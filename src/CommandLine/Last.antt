-- ===== src/CommandLine/Last.antt =====
-- src/main.c: what a whole command line comes to.
use switcher_c.Base.{
  ◌≡◌, refl, Bool, true, false, some, List, [], ◌∷◌, ◌++◌, map, inl, inr, if◌then◌else◌, Bool-cases,
}
use switcher_c.Base.Text.{Bytes, text}
use switcher_c.CommandLine.{
  Opt, opt_c, opt_p, opt_d, opt_usage, HttpOptions, CommandLine, strncpy_conf, set_port,
  read_options,
}
use switcher_c.World.{Event, Env, World, Run, ok, log_event}
use switcher_c.World.Fate.{Fate, exits, goes_on, exit_failure}

abbrev pub paths : List Opt → List Bytes
paths [] = []
paths (opt_c path ∷ opts) = path ∷ paths opts
paths (_ ∷ opts) = paths opts

abbrev pub ports : List Opt → List Bytes
ports [] = []
ports (opt_p port ∷ opts) = port ∷ ports opts
ports (_ ∷ opts) = ports opts

abbrev pub has_d : List Opt → Bool
has_d [] = false
has_d (opt_d ∷ opts) = true
has_d (_ ∷ opts) = has_d opts

abbrev pub has_usage : List Opt → Bool
has_usage [] = false
has_usage (opt_usage ∷ opts) = true
has_usage (_ ∷ opts) = has_usage opts

abbrev pub last_or : Bytes → List Bytes → Bytes
last_or s [] = s
last_or s (s' ∷ rest) = last_or s' rest

-- The variables, with the element of the port taken out of the array.
abbrev pub command_line : Bytes → HttpOptions → Bytes → HttpOptions → Bool → CommandLine
command_line path name port rest daemon = record {
  config_path = path;
  http_options = name ++ (some port ∷ rest);
  run_as_daemon = daemon;
}

abbrev usage : Bytes → World → Run (Fate CommandLine)
usage arg0 w = ok (exits exit_failure) (
    log_event
      (Event.put_stderr (text "Usage: " ++ (arg0 ++ text " [-h] [-c config-file] [-p port]\n"))) w)

if-true : (b : Bool) → (if b then true else true) ≡ true
if-true b = elim (Bool-cases b) [ inl e ↦ rw e refl | inr e ↦ rw e refl ]

-- From variables in which the element of the port is a block, the loop over the options is the
-- same as its outcome, read off the whole command line: with `-h` or an unknown option, the
-- message on usage and the exit with 1; else the path of the last `-c` and the port of the last
-- `-p`, cut to 256 bytes, or the old values where there is none, and the daemon's flag if there
-- is a `-d` or it was set.
pub read_options-Last :
    (arg0 : Bytes) (opts : List Opt) (path name port : Bytes) (rest : HttpOptions) (daemon : Bool)
    (env : Env) (w : World)
    → read_options arg0 opts (command_line path (some name ∷ []) port rest daemon) env w ≡ (
        if has_usage opts
        then usage arg0 w
        else ok
            (goes_on (
              command_line
                (last_or path (map strncpy_conf (paths opts)))
                (some name ∷ [])
                (last_or port (map strncpy_conf (ports opts)))
                rest
                (if has_d opts then true else daemon)))
            w)
unfolding read_options set_port
read_options-Last arg0 [] path name port rest daemon env w = refl
read_options-Last arg0 (opt_c p ∷ opts) path name port rest daemon env w =
    read_options-Last arg0 opts (strncpy_conf p) name port rest daemon env w
read_options-Last arg0 (opt_p p ∷ opts) path name port rest daemon env w =
    read_options-Last arg0 opts path name (strncpy_conf p) rest daemon env w
read_options-Last arg0 (opt_d ∷ opts) path name port rest daemon env w =
    rw (if-true (has_d opts)) at (read_options-Last arg0 opts path name port rest true env w)
read_options-Last arg0 (opt_usage ∷ opts) path name port rest daemon env w = refl
