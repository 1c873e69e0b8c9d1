-- ===== src/Daemon/Instance.antt =====
-- src/main.c: `daemonize` while another process holds the lock of the PID file, and what it keeps.
use switcher_c.Base.{
  ℕ, suc, ◌≡◌, refl, ◌∙◌, true, ◌&&◌, not, Option, none, some, [], ◌∷◌, inl, inr, ◌==◌, Bool-cases,
  if◌then◌else◌,
}
use switcher_c.Base.Int.{ℤ, pos, eqb_ℤ}
use switcher_c.Daemon.Rule.{is_quiet, Steps, daemonize-Returns}
use switcher_c.Daemon.{PidFile, ewouldblock, write_pid, daemonize}
use switcher_c.World.{Event, Log, Env, World, Spi}
use switcher_c.World.Fate.{Fate, exits}
use switcher_c.World.Returns.{Returns, returns}

-- The number of times that a process number was written to the PID file.
abbrev pub pid_writes : Log → ℕ
pid_writes [] = 0
pid_writes (e ∷ l) = if is_quiet e then pid_writes l else suc (pid_writes l)

-- The kernel refuses the lock because it is held elsewhere.
pub record IsHeld (env : Env) : Type 0 where
  pub refused :
      (l : Log) (fh : ℤ)
      → (not (eqb_ℤ (env.ret l (Event.flock_exclusive fh)) (pos 0))
          && env.out l (Event.flock_exclusive fh) == ewouldblock)
        ≡ true

module _ (env : Env) (held : IsHeld env) (n : ℕ) where
  abbrev Unwritten : World → Type 0
  Unwritten w = pid_writes w.log ≡ n

  abbrev Ends : Fate PidFile → World → Type 0
  Ends o w' = ((code : ℤ) × (o ≡ exits code)) × Unwritten w'

  steps : Steps env Unwritten Ends
  steps = record {
    granted = λ e w q _ i. quiet e w.log q ∙ i;
    refused = λ e w {code} q _ i. ((code, refl), quiet e w.log q ∙ i);
    logged = λ msg w i. i;
    locked = λ fh w r i. absurd (some_not_none (rw (held.refused w.log fh) at r));
  }
    where
      quiet : (e : Event) (l : Log) → is_quiet e ≡ true → pid_writes (e ∷ l) ≡ pid_writes l
      quiet e l q = rw q refl

      some_not_none : some (pos 1) ≡ none → ⊥
      some_not_none e = cc

-- While the lock of the PID file is held elsewhere, so that `flock` fails with `EWOULDBLOCK`, no
-- process comes out of `daemonize`: it exits, whatever the kernel answers otherwise, and no
-- process number is written to the PID file.
pub daemonize-Ends :
    (env : Env) (w : World)
    → IsHeld env
    → Returns
        (λ o w'. ((code : ℤ) × (o ≡ exits code)) × (pid_writes w'.log ≡ pid_writes w.log))
        (daemonize env w)
daemonize-Ends env w held = daemonize-Returns (steps env held (pid_writes w.log)) w refl

module _ (env : Env) (s : Option Spi) where
  write_pid-spi :
      (fh : ℤ) (w : World) → w.spi ≡ s → Returns (λ _ w'. w'.spi ≡ s) (write_pid fh env w)
  unfolding write_pid
  write_pid-spi fh w e = elim (Bool-cases (eqb_ℤ (env.ret w.log (Event.fdopen fh)) (pos 0))) [
    | inl bad ↦ rw bad (returns e)
    | inr good ↦ rw good (returns e)
  ]

  keeps : Steps env (λ w. w.spi ≡ s) (λ _ w'. w'.spi ≡ s)
  keeps = record {
    granted = λ e w _ _ i. i;
    refused = λ e w _ _ i. i;
    logged = λ msg w i. i;
    locked = λ fh w r i. write_pid-spi fh _ i;
  }

  pub daemonize-spi : (w : World) → w.spi ≡ s → Returns (λ _ w'. w'.spi ≡ s) (daemonize env w)
  daemonize-spi w e = daemonize-Returns keeps w e
