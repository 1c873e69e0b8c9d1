-- ===== src/Daemon/Rule.antt =====
-- src/main.c: a rule for `daemonize`, with an invariant of its calls up to the lock.
use switcher_c.Base.{
  ℕ, zero, suc, ◌≡◌, refl, Bool, true, false, ◌&&◌, not, Option, none, some, inl, inr, ◌==◌,
  if◌then◌else◌, Bool-cases,
}
use switcher_c.Base.Int.{ℤ, pos, minus_one, eqb_ℤ, ltb_ℤ}
use switcher_c.Base.Text.{Bytes}
use switcher_c.Daemon.{
  PidFile, ewouldblock, pid_dir, pid_path, work_dir, fork_child, close_all, write_pid,
  lock_pid_file, make_pid_dir, detach, lead_session, daemonize,
}
use switcher_c.World.{Event, Signal, Log, Env, World, Io, log_event}
use switcher_c.World.Fate.{Fate, exits}
use switcher_c.World.Returns.{Returns, returns, bind}

-- The exit code that the answer to a call stands for, if it ends the process: a parent leaves
-- with success, and a refusal is a failure.
abbrev pub refusal : Env → Log → Event → Option ℤ
refusal env l Event.fork =
    let pid = env.ret l Event.fork in
    if ltb_ℤ pid (pos 0) then some (pos 1) else if ltb_ℤ (pos 0) pid then some (pos 0) else none
refusal env l Event.setsid = if ltb_ℤ (env.ret l Event.setsid) (pos 0) then some (pos 1) else none
refusal env l (Event.mkdir dir) =
    if eqb_ℤ (env.ret l (Event.mkdir dir)) minus_one then some (pos 1) else none
refusal env l (Event.flock_exclusive fh) =
    if not (eqb_ℤ (env.ret l (Event.flock_exclusive fh)) (pos 0))
      && env.out l (Event.flock_exclusive fh) == ewouldblock
    then some (pos 1)
    else none
refusal env l (Event.fdopen fh) =
    if eqb_ℤ (env.ret l (Event.fdopen fh)) (pos 0) then some (pos 1) else none
refusal env l _ = none

-- A call that writes no process number.
abbrev pub is_quiet : Event → Bool
is_quiet (Event.put_pid _) = false
is_quiet _ = true

-- What the rule asks of an invariant `I` of the calls and a postcondition `Q`.
pub record Steps (env : Env) (I : World → Type 0) (Q : Fate PidFile → World → Type 0) : Type 0 where
  pub granted :
      (e : Event) (w : World)
      → is_quiet e ≡ true
      → refusal env w.log e ≡ none
      → I w
      → I (log_event e w)
  pub refused :
      (e : Event) (w : World) {code : ℤ}
      → is_quiet e ≡ true
      → refusal env w.log e ≡ some code
      → I w
      → Q (exits code) (log_event e w)
  pub logged :
      (msg : Bytes) (w : World) {code : ℤ}
      → Q (exits code) w
      → Q (exits code) (log_event (Event.put_syslog msg) w)
  pub locked :
      (fh : ℤ) (w : World)
      → refusal env w.log (Event.flock_exclusive fh) ≡ none
      → I w
      → Returns Q (write_pid fh env (log_event (Event.flock_exclusive fh) w))

module _ {env : Env} {I : World → Type 0} {Q : Fate PidFile → World → Type 0}
    (s : Steps env I Q) where
  -- An answer that ends the process with a message.
  stops :
      (e : Event) (msg : Bytes) (w : World) {code : ℤ}
      → is_quiet e ≡ true
      → refusal env w.log e ≡ some code
      → I w
      → Q (exits code) (log_event (Event.put_syslog msg) (log_event e w))
  stops e msg w quiet r i = s.logged msg _ (s.refused e w quiet r i)

  fork_child-Returns :
      (msg : Bytes) (k : Io (Fate PidFile)) (w : World)
      → ((w' : World) → I w' → Returns Q (k env w'))
      → I w
      → Returns Q (fork_child msg k env w)
  unfolding fork_child
  fork_child-Returns msg k w later i =
      elim (Bool-cases (ltb_ℤ (env.ret w.log Event.fork) (pos 0))) [
        | inl bad ↦ rw bad (returns (stops Event.fork msg w refl (rw bad refl) i))
        | inr good ↦ rw good (elim (Bool-cases (ltb_ℤ (pos 0) (env.ret w.log Event.fork))) [
          | inl parent ↦
              rw parent (returns (s.refused Event.fork w refl (rw (good, parent) refl) i))
          | inr child ↦ rw child (later _ (s.granted Event.fork w refl (rw (good, child) refl) i))
        ])
      ]

  close_all-Returns : (n : ℕ) (w : World) → I w → Returns (λ _ w'. I w') (close_all n env w)
  unfolding close_all
  close_all-Returns zero w i = returns i
  close_all-Returns (suc n) w i =
      close_all-Returns n _ (s.granted (Event.close_device (pos (suc n))) w refl refl i)

  lock_pid_file-Returns : (w : World) → I w → Returns Q (lock_pid_file env w)
  unfolding lock_pid_file
  lock_pid_file-Returns w i =
      let w1 = log_event (Event.open_file pid_path) w in
      let i1 = s.granted (Event.open_file pid_path) w refl refl i in
      let fh = env.ret w.log (Event.open_file pid_path) in
      let lock = Event.flock_exclusive fh in
      elim (Bool-cases
        (not (eqb_ℤ (env.ret w1.log lock) (pos 0)) && env.out w1.log lock == ewouldblock)) [
          | inl bad ↦ rw bad (returns (stops lock _ w1 refl (rw bad refl) i1))
          | inr good ↦ rw good (s.locked fh w1 (rw good refl) i1)
        ]

  make_pid_dir-Returns : (w : World) → I w → Returns Q (make_pid_dir env w)
  unfolding make_pid_dir
  make_pid_dir-Returns w i =
      let w1 = log_event (Event.stat pid_dir) w in
      let i1 = s.granted (Event.stat pid_dir) w refl refl i in
      let mkdir = Event.mkdir pid_dir in
      elim (Bool-cases (eqb_ℤ (env.ret w.log (Event.stat pid_dir)) minus_one)) [
        | inr found ↦ rw found (lock_pid_file-Returns w1 i1)
        | inl missing ↦ rw missing (elim (Bool-cases (eqb_ℤ (env.ret w1.log mkdir) minus_one)) [
          | inl bad ↦ rw bad (returns (stops mkdir _ w1 refl (rw bad refl) i1))
          | inr good ↦ rw good (lock_pid_file-Returns _ (s.granted mkdir w1 refl (rw good refl) i1))
        ])
      ]

  detach-Returns : (w : World) → I w → Returns Q (detach env w)
  unfolding detach
  detach-Returns w i =
      let i1 = s.granted (Event.umask 0) w refl refl i in
      let i2 = s.granted (Event.chdir work_dir) _ refl refl i1 in
      bind (close_all-Returns _ _ (s.granted Event.sysconf_open_max _ refl refl i2))
        λ _ w' i'. make_pid_dir-Returns w' i'

  lead_session-Returns : (w : World) → I w → Returns Q (lead_session env w)
  unfolding lead_session
  lead_session-Returns w i = elim (Bool-cases (ltb_ℤ (env.ret w.log Event.setsid) (pos 0))) [
    | inl bad ↦ rw bad (returns (stops Event.setsid _ w refl (rw bad refl) i))
    | inr good ↦
        let i1 = s.granted Event.setsid w refl (rw good refl) i in
        let i2 = s.granted (Event.ignore_signal Signal.sigchld) _ refl refl i1 in
        rw good (
          fork_child-Returns _ _ _ detach-Returns
            (s.granted (Event.ignore_signal Signal.sighup) _ refl refl i2))
  ]

  pub daemonize-Returns : (w : World) → I w → Returns Q (daemonize env w)
  unfolding daemonize
  daemonize-Returns w i = fork_child-Returns _ _ w lead_session-Returns i
