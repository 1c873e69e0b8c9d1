-- ===== src/Trace.antt =====
-- src/trace.c: the debug output. A text is the result of formatting the arguments.
pub mod Stateless
use switcher_c.Base.{Bool, true, false, List, [], ◌∷◌, if◌then◌else◌}
use switcher_c.Base.Int.{ℤ, pos, eqb_ℤ}
use switcher_c.Base.Text.{Bytes, text}
use switcher_c.World.{Event, Io, pure, ◌>>=◌, ◌>>◌, call, emit}

-- The static variables; `env_debug` is a pointer, with 0 for NULL.
pub record TraceState : Type 0 where
  pub initialized : Bool
  pub env_debug : ℤ

abbrev pub envvar_debug : Bytes
envvar_debug = text "DEBUG"

-- The text goes out only if the variable is set.
unfoldable pub print_if : ℤ → Bytes → Io ℤ
print_if env_debug s =
    if eqb_ℤ env_debug (pos 0)
    then pure (pos 0)
    else (do n ← call (Event.put_stdout s); emit Event.fflush_stdout; pure n)

unfoldable pub trace_printf : Bytes → TraceState → Io (ℤ × TraceState)
trace_printf s t = do
  env_debug ← (if t.initialized then pure t.env_debug else call (Event.getenv envvar_debug))
  n ← print_if env_debug s
  pure (n, record t { env_debug = env_debug })
