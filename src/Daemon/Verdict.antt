-- ===== src/Daemon/Verdict.antt =====
-- src/main.c: how `daemonize` ends, by the answers of the kernel.
use switcher_c.Base.{◌≡◌, refl, sym, Option, none, some, [], ◌∷◌, inl, inr, Bool-cases}
use switcher_c.Base.Int.{ℤ, pos, eqb_ℤ}
use switcher_c.Daemon.Rule.{refusal, Steps, daemonize-Returns}
use switcher_c.Daemon.{PidFile, write_pid, daemonize}
use switcher_c.World.{Event, Log, Env, World}
use switcher_c.World.Fate.{Fate, exit_code}
use switcher_c.World.Returns.{Returns, returns}

-- The first refusal in a log.
abbrev pub verdict : Env → Log → Option ℤ
verdict env [] = none
verdict env (e ∷ l) = elim (verdict env l) [ none ↦ refusal env l e | some code ↦ some code ]

module _ (env : Env) where
  abbrev NotEnded : World → Type 0
  NotEnded w = verdict env w.log ≡ none

  abbrev Judged : Fate PidFile → World → Type 0
  Judged o w' = exit_code o ≡ verdict env w'.log

  write_pid-Judged : (fh : ℤ) (w : World) → NotEnded w → Returns Judged (write_pid fh env w)
  unfolding write_pid
  write_pid-Judged fh w e = elim (Bool-cases (eqb_ℤ (env.ret w.log (Event.fdopen fh)) (pos 0))) [
    | inl bad ↦ rw bad (returns (rw (e, bad) refl))
    | inr good ↦ rw good (returns (rw (e, good) refl))
  ]

  steps : Steps env NotEnded Judged
  steps = record {
    granted = λ e w _ r i. rw i r;
    refused = λ e w _ r i. sym (rw i r);
    logged = λ msg w i. rw (sym i) refl;
    locked = λ fh w r i. write_pid-Judged fh _ (rw i r);
  }

  -- Where no call before it was refused, `daemonize` ends without undefined behaviour, and its
  -- first refused call decides how: a `fork` that gives a positive number exits with 0; a `fork`
  -- or `setsid` that gives a negative one, a `mkdir` that gives -1, a `flock` that fails with
  -- `EWOULDBLOCK`, or an `fdopen` that gives NULL, with 1. Where none of its calls is refused,
  -- the process goes on.
  pub daemonize-Judged :
      (w : World)
      → verdict env w.log ≡ none
      → Returns (λ o w'. exit_code o ≡ verdict env w'.log) (daemonize env w)
  daemonize-Judged w e = daemonize-Returns steps w e
