-- ===== src/World.antt =====
-- What lies outside the program: the system calls that it makes, in the order in which it makes
-- them, and the answers that it gets. The kernel, the SMBus library and the hardware behind them
-- are an `Env`, a parameter of the model that may answer any call in any way.
pub mod Returns
pub mod Weight
pub mod Quiet
pub mod Fate
use switcher_c.Base.{ℕ, Option, none, some, List, ◌∷◌}
use switcher_c.Base.Int.{ℤ}
use switcher_c.Base.Text.{Bytes}

-- What `malloc` is asked for.
pub data Object : Type 0 where
  bus_data_object dev_data_object mcp23017_object spi_object option_object : Object

pub data Signal : Type 0 where
  sigint sigterm sigchld sighup : Signal

-- A call that leaves the program, with its arguments; `flock_exclusive` is `flock` with
-- `LOCK_EX | LOCK_NB` and stores `errno`, and `put_pid` is `fprintf` to the stream of the PID file.
pub data Event : Type 0 where
  malloc : Object → Event
  free : Object → Event
  open_device : Bytes → Event
  close_device : ℤ → Event
  set_slave : ℤ → ℕ → Event
  smbus_write_byte : ℤ → ℕ → Event
  smbus_read_byte : ℤ → Event
  smbus_write_byte_data : ℤ → ℕ → ℕ → Event
  smbus_read_byte_data : ℤ → ℕ → Event
  spi_rd_mode : ℤ → Event
  spi_rd_bits_per_word : ℤ → Event
  spi_rd_max_speed : ℤ → Event
  spi_message : ℤ → ℕ → ℕ → ℕ → Event
  put_stderr : Bytes → Event
  put_syslog : Bytes → Event
  mg_printf : Bytes → Event
  mg_create_server : Event
  mg_set_option : Bytes → Bytes → Event
  mg_destroy_server : Event
  handle_signal : Signal → Event
  ignore_signal : Signal → Event
  openlog : Bytes → Event
  closelog : Event
  fork : Event
  setsid : Event
  umask : ℕ → Event
  chdir : Bytes → Event
  sysconf_open_max : Event
  stat : Bytes → Event
  mkdir : Bytes → Event
  open_file : Bytes → Event
  flock_exclusive : ℤ → Event
  flock_unlock : ℤ → Event
  fdopen : ℤ → Event
  getpid : Event
  put_pid : Bytes → Event
  fflush_pid : Event
  fclose_pid : Event
  unlink : Bytes → Event
  getenv : Bytes → Event
  put_stdout : Bytes → Event
  fflush_stdout : Event

-- The calls made so far, the latest first.
abbrev pub Log : Type 0
Log = List Event

-- `ret` is a call's return value (for `malloc`: 0 is NULL), and `out` what it stores through its
-- pointer argument; both may depend on all earlier calls.
pub record Env : Type 0 where
  pub ret : Log → Event → ℤ
  pub out : Log → Event → ℕ
  pub strerror : Log → Bytes

-- `Spi` of src/pfio.c.
pub record Spi : Type 0 where
  pub fd : ℤ
  pub mode : ℕ
  pub bitsperword : ℕ
  pub maxspeed : ℤ

-- The state that functions share: the calls so far, the static pointer `spi` of pfio.c, and the
-- message buffer that is handed from the HTTP handler down to the callbacks.
pub record World : Type 0 where
  pub log : Log
  pub spi : Option Spi
  pub buf : Bytes

-- `fault` is undefined behaviour: a null or wild pointer is used, or a shift is out of range.
pub data Run (A : Type 0) : Type 0 where
  ok : A → World → Run A
  fault : Run A

abbrev pub Io : Type 0 → Type 0
Io A = Env → World → Run A

abbrev pub pure : {A : Type 0} → A → Io A
pure a env w = ok a w

abbrev pub undefined_behaviour : {A : Type 0} → Io A
undefined_behaviour env w = fault

module _ {A B : Type 0} where
  abbrev pub and_then : Run A → (A → World → Run B) → Run B
  and_then (ok a w) k = k a w
  and_then fault k = fault

  infixl 5 ◌>>=◌ ◌>>◌
  abbrev pub ◌>>=◌ : Io A → (A → Io B) → Io B
  ◌>>=◌ m k env w = and_then (m env w) (λ a. k a env)

  abbrev pub ◌>>◌ : Io A → Io B → Io B
  ◌>>◌ m k env w = and_then (m env w) (λ _. k env)

-- A use of a pointer that may be NULL.
abbrev pub deref : {A : Type 0} → Option A → Io A
deref none = undefined_behaviour
deref (some a) = pure a

abbrev pub log_event : Event → World → World
log_event e w = record w { log = e ∷ w.log }

-- Makes a call and takes its return value; `call_out` takes what it stores too.
abbrev pub call : Event → Io ℤ
call e env w = ok (env.ret w.log e) (log_event e w)

abbrev pub call_out : Event → Io (ℤ × ℕ)
call_out e env w = ok (env.ret w.log e, env.out w.log e) (log_event e w)

abbrev pub emit : Event → Io (Unit {0})
emit e env w = ok tt (log_event e w)

abbrev pub get_spi : Io Spi
get_spi env w = deref w.spi env w

abbrev pub set_spi : Option Spi → Io (Unit {0})
set_spi s env w = ok tt (record w { spi = s })

abbrev pub set_buf : Bytes → Io (Unit {0})
set_buf b env w = ok tt (record w { buf = b })

abbrev pub strerror_now : Io Bytes
strerror_now env w = ok (env.strerror w.log) w

-- The type of `cb_error`, with the buffer that its other two arguments name; NULL is `none`.
abbrev pub ErrorCb : Type 0
ErrorCb = Option (Bytes → Io (Unit {0}))

abbrev pub call_error : ErrorCb → Bytes → Io (Unit {0})
call_error none msg = undefined_behaviour
call_error (some f) msg = f msg
