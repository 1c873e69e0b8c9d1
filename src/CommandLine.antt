-- ===== src/CommandLine.antt =====
-- src/main.c: the command line. `getopt` is not modelled: what it returns, call by call, is an
-- argument.
pub mod Last
use switcher_c.Base.{
  ℕ, zero, suc, Bool, true, false, Option, none, some, List, [], ◌∷◌, ◌++◌, ltb, if◌then◌else◌,
}
use switcher_c.Base.Int.{ℤ, pos, eqb_ℤ}
use switcher_c.Base.Lists.{length, take, get_elem?, set, replicate}
use switcher_c.Base.Text.{Bytes, text}
use switcher_c.World.{Object, Event, Io, pure, undefined_behaviour, ◌>>=◌, ◌>>◌, call, deref}
use switcher_c.World.Fate.{Fate, goes_on, leave}

abbrev pub max_num_conf : ℕ
max_num_conf = 128

abbrev pub str_conf_len : ℕ
str_conf_len = 256

abbrev pub default_config_path : Bytes
default_config_path = text "config/io_ext.ini"

-- What `getopt` returns, with `optarg`; `opt_usage` is `-h` or an option that it does not know.
pub data Opt : Type 0 where
  opt_c opt_p : Bytes → Opt
  opt_d opt_usage : Opt

-- An element of the array of options is the block that it points to, or NULL.
abbrev pub HttpOptions : Type 0
HttpOptions = List (Option Bytes)

-- The variables that the options set.
pub record CommandLine : Type 0 where
  pub config_path : Bytes
  pub http_options : HttpOptions
  pub run_as_daemon : Bool

-- `strncpy` to a field of `STR_CONF_LEN` bytes.
abbrev pub strncpy_conf : Bytes → Bytes
strncpy_conf s = take str_conf_len s

-- The text that such a field holds: without a NUL in it, a reader runs past its end.
unfoldable pub conf_string : Bytes → Io Bytes
conf_string s = if ltb (length s) str_conf_len then pure s else undefined_behaviour

-- `ADD_OPTION_ELEMENT`, with the index that the counter has; `strncpy` writes to the block.
unfoldable pub add_option_element : Bytes → ℕ → HttpOptions → Io HttpOptions
add_option_element option cnt_option options = do
  block ← call (Event.malloc Object.option_object)
  if eqb_ℤ block (pos 0)
      then undefined_behaviour
      else pure (set options cnt_option (some (strncpy_conf option)))

abbrev pub no_options : HttpOptions
no_options = replicate max_num_conf none

-- The options before the command line is read.
unfoldable pub default_options : Io CommandLine
default_options = do
  first ← add_option_element (text "listening_port") 0 no_options
  options ← add_option_element (text "8080") 1 first
  pure (record {
    config_path = strncpy_conf default_config_path;
    http_options = options;
    run_as_daemon = false;
  })

-- `strncpy` to `http_options[1]`.
unfoldable pub set_port : Bytes → CommandLine → Io CommandLine
set_port port c = do
  block ← deref (get_elem? c.http_options 1)
  old ← deref block
  pure (record c { http_options = set c.http_options 1 (some (strncpy_conf port)) })

-- The loop over the options, for the program name `arg0`.
unfoldable pub read_options : Bytes → List Opt → CommandLine → Io (Fate CommandLine)
read_options arg0 [] c = pure (goes_on c)
read_options arg0 (opt_c path ∷ rest) c =
    read_options arg0 rest (record c { config_path = strncpy_conf path })
read_options arg0 (opt_p port ∷ rest) c = do c' ← set_port port c; read_options arg0 rest c'
read_options arg0 (opt_d ∷ rest) c = read_options arg0 rest (record c { run_as_daemon = true })
read_options arg0 (opt_usage ∷ rest) c =
    leave (text "Usage: " ++ (arg0 ++ text " [-h] [-c config-file] [-p port]\n"))

-- The first `cnt_option` elements, as the server reads them.
unfoldable pub option_strings : ℕ → HttpOptions → Io (List Bytes)
option_strings zero options = pure []
option_strings (suc n) [] = undefined_behaviour
option_strings (suc n) (block ∷ options) = do
  field ← deref block
  s ← conf_string field
  rest ← option_strings n options
  pure (s ∷ rest)
