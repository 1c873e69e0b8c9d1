-- ===== src/World/Fate.antt =====
-- What becomes of the process: `exit` ends it, anything else lets it go on.
use switcher_c.Base.{Option, none, some}
use switcher_c.Base.Int.{ℤ, pos}
use switcher_c.Base.Text.{Bytes}
use switcher_c.World.{Event, Io, pure, ◌>>◌, emit}

pub data Fate (A : Type 0) : Type 0 where
  exits : ℤ → Fate A
  goes_on : A → Fate A

abbrev pub exit_success : ℤ
exit_success = pos 0

abbrev pub exit_failure : ℤ
exit_failure = pos 1

module _ {A : Type 0} where
  -- `fprintf(stderr, msg); exit(EXIT_FAILURE)`, and the same with `syslog`.
  abbrev pub leave : Bytes → Io (Fate A)
  leave msg = do emit (Event.put_stderr msg); pure (exits exit_failure)

  abbrev pub quit : Bytes → Io (Fate A)
  quit msg = do emit (Event.put_syslog msg); pure (exits exit_failure)

  abbrev pub exit_code : Fate A → Option ℤ
  exit_code (exits code) = some code
  exit_code (goes_on a) = none

  -- What follows a step that may have ended the process.
  abbrev pub if_alive : {B : Type 0} → Fate A → (A → Io (Fate B)) → Io (Fate B)
  if_alive (exits code) k = pure (exits code)
  if_alive (goes_on a) k = k a
