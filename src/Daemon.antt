-- ===== src/Daemon.antt =====
-- src/main.c: `daemonize`, which detaches the process and takes the lock of the PID file.
pub mod Rule
pub mod Verdict
pub mod Instance
use switcher_c.Base.{ℕ, zero, suc, Bool, true, false, ◌&&◌, not, ◌∷◌, ◌++◌, [], ◌==◌, if◌then◌else◌}
use switcher_c.Base.Int.{ℤ, pos, minus_one, pos_part, eqb_ℤ, ltb_ℤ}
use switcher_c.Base.Text.{Bytes, text}
use switcher_c.Libc.{format_d, snprintf}
use switcher_c.World.{Event, Signal, Io, pure, ◌>>=◌, ◌>>◌, call, call_out, emit}
use switcher_c.World.Fate.{Fate, exits, goes_on, exit_success, quit}

-- The static variables of the PID file; of the stream, whether it is open.
pub record PidFile : Type 0 where
  pub stream_pid : Bool
  pub fh_pid : ℤ

abbrev max_path_len : ℕ
max_path_len = 255

abbrev pub pid_file : Bytes
pid_file = text "switcher.pid"

abbrev pub pid_dir : Bytes
pid_dir = text "/var/run/switcher"

abbrev pub work_dir : Bytes
work_dir = text "/"

abbrev pub ewouldblock : ℕ
ewouldblock = 11

-- `snprintf` with "%s/%s"; its result, the length, is not negative.
abbrev pub pid_path : Bytes
pid_path = snprintf max_path_len (pid_dir ++ (text "/" ++ pid_file))

-- `fork`, after which only the child goes on.
unfoldable pub fork_child : {A : Type 0} → Bytes → Io (Fate A) → Io (Fate A)
fork_child msg k = do
  pid ← call Event.fork
  if ltb_ℤ pid (pos 0) then quit msg else if ltb_ℤ (pos 0) pid then pure (exits exit_success) else k

-- The loop that closes the descriptors from the given one down to 1.
unfoldable pub close_all : ℕ → Io (Unit {0})
close_all zero = pure tt
close_all (suc n) = do emit (Event.close_device (pos (suc n))); close_all n

-- The stream on the locked file, and the number of the process in it.
unfoldable pub write_pid : ℤ → Io (Fate PidFile)
write_pid fh = do
  stream ← call (Event.fdopen fh)
  if eqb_ℤ stream (pos 0) then quit (text "Could not create stream of PID file handle.") else (do
    pid ← call Event.getpid
    emit (Event.put_pid (format_d pid ++ text "\n"))
    emit Event.fflush_pid
    emit (Event.put_syslog (text "switcher daemon started.\n"))
    pure (goes_on (record { stream_pid = true; fh_pid = fh })))

-- Of the errors of `flock` only a lock that is held elsewhere ends the process.
unfoldable pub lock_pid_file : Io (Fate PidFile)
lock_pid_file = do
  fh ← call (Event.open_file pid_path)
  (rc, errno) ← call_out (Event.flock_exclusive fh)
  if not (eqb_ℤ rc (pos 0)) && errno == ewouldblock
      then quit (text "Quitting. There is already another instance running.")
      else write_pid fh

unfoldable pub make_pid_dir : Io (Fate PidFile)
make_pid_dir = do
  found ← call (Event.stat pid_dir)
  if eqb_ℤ found minus_one
      then (do
        made ← call (Event.mkdir pid_dir)
        if eqb_ℤ made minus_one
            then quit (text "Could not create directory for PID file.")
            else lock_pid_file)
      else lock_pid_file

-- The second child: no mode mask, the root as directory, and all descriptors but 0 closed.
unfoldable pub detach : Io (Fate PidFile)
detach = do
  emit (Event.umask 0)
  emit (Event.chdir work_dir)
  open_max ← call Event.sysconf_open_max
  close_all (pos_part open_max)
  make_pid_dir

-- The first child.
unfoldable pub lead_session : Io (Fate PidFile)
lead_session = do
  session ← call Event.setsid
  if ltb_ℤ session (pos 0) then quit (text "Daemon cannot become session leader.") else (do
    emit (Event.ignore_signal Signal.sigchld)
    emit (Event.ignore_signal Signal.sighup)
    fork_child (text "Could not spawn daemon process. Stage 2.") detach)

unfoldable pub daemonize : Io (Fate PidFile)
daemonize = fork_child (text "Could not spawn daemon process. Stage 1.") lead_session
