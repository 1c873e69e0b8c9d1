-- ===== src/Trace/Stateless.antt =====
-- src/trace.c: a sequence of calls.
use switcher_c.Base.{◌≡◌, ◌∙◌, ap, refl, false, List, [], ◌∷◌}
use switcher_c.Base.Int.{ℤ}
use switcher_c.Base.Text.{Bytes}
use switcher_c.Trace.{TraceState, envvar_debug, print_if, trace_printf}
use switcher_c.World.{Event, Env, World, Run, ok, fault, Io, pure, ◌>>=◌, and_then, call, log_event}
use switcher_c.World.Returns.{and_then_assoc}

-- The results of a sequence of calls.
unfoldable pub trace_all : List Bytes → TraceState → Io (List ℤ)
trace_all [] t = pure []
trace_all (s ∷ rest) t = do (n, t') ← trace_printf s t; ns ← trace_all rest t'; pure (n ∷ ns)

-- The same without a variable that outlives a call: each asks the environment.
unfoldable pub ask_each : List Bytes → Io (List ℤ)
ask_each [] = pure []
ask_each (s ∷ rest) = do
  env_debug ← call (Event.getenv envvar_debug)
  n ← print_if env_debug s
  ns ← ask_each rest
  pure (n ∷ ns)

and_then-same :
    {A B : Type 0} (r : Run A) (k h : A → World → Run B)
    → ((a : A) (w : World) → k a w ≡ h a w)
    → and_then r k ≡ and_then r h
and_then-same (ok a w) k h same = same a w
and_then-same fault k h same = refl

-- A sequence of debug texts, from the initial state with whatever is in the pointer, has the
-- results and makes the calls of a version without variables, which asks for `DEBUG` at each
-- text: the flag `initialized` never saves a call.
pub trace_all-Stateless :
    (ss : List Bytes) (debug : ℤ) (env : Env) (w : World)
    → trace_all ss (record { initialized = false; env_debug = debug }) env w ≡ ask_each ss env w
unfolding trace_all ask_each trace_printf
trace_all-Stateless [] debug env w = refl
trace_all-Stateless (s ∷ rest) debug env w =
    let asked = env.ret w.log (Event.getenv envvar_debug) in
    and_then_assoc (print_if asked s env (log_event (Event.getenv envvar_debug) w)) _ _
    ∙ and_then-same (print_if asked s env (log_event (Event.getenv envvar_debug) w)) _ _
        (λ n w'. ap (λ r. and_then r (λ ns. ok (n ∷ ns))) (trace_all-Stateless rest asked env w'))
