-- ===== src/Facade/PidFile.antt =====
-- `write_pid` and `remove_pid` of `cci_daemon_facade`, which differ from the functions of the same names in
-- cci_daemon/src/core/cci_daemonize.cpp. A line for the log is the call `print` here.
use cci_daemon.Base.{
  ℕ, ◌≡◌, ◌↔◌, refl, inl, inr, Bool, true, false, not, ◌||◌, List, ◌∷◌, arith, ◌==◌, if◌then◌else◌,
  Text, codes, length, ℤ, pos, minus_one, int_eq, Bool-cases,
}
use cci_daemon.Host.{
  Call, getpid, create_file, set_lock, print, fcntl_getfd, fcntl_setfd, ftruncate, write_file,
  remove, Env, returned, M, pure, ◌>>=◌, ◌>>◌, call, get_errno,
}
use cci_daemon.Daemonize.{has_flag}
use cci_daemon.Daemonize.PidFile.{
  cpf_cloexec, say, or_cloexec, lock_region, pid_line, f_wrlck, seek_set, eagain, eacces, Runs,
  guard_iff, last_iff, said_false,
}
use cci_daemon.Daemonize.PidFile

unfoldable pub log_cloexec : ℤ → M Bool
log_cloexec fd = do
  flags ← call (fcntl_getfd fd)
  if int_eq flags minus_one then say (codes "could not get flags for pid file") false else do
    set ← call (fcntl_setfd fd (or_cloexec flags))
    if int_eq set minus_one then say (codes "could not set flags for pid file") false else pure true

unfoldable pub log_and_put : ℤ → M Bool
log_and_put fd = do
  say (codes "writing pid file....") true
  pid ← call getpid
  written ← call (write_file fd (pid_line pid))
  if not (int_eq written (pos (length (pid_line pid))))
      then say (codes "writing to pid file failed") false
      else pure true

unfoldable pub log_and_cut : ℤ → M Bool
log_and_cut fd = do
  cut ← call (ftruncate fd 0)
  if int_eq cut minus_one then say (codes "could not truncate pid file") false else log_and_put fd

unfoldable pub log_locked : M Bool
log_locked = do
  e ← get_errno
  say
      (if e == eagain || e == eacces
        then codes "pid file is locked; probably daemon is already running"
        else codes "unable to lock pid file")
      false

unfoldable pub log_and_lock : ℤ → M Bool
log_and_lock fd = do
  locked ← lock_region fd f_wrlck seek_set 0 0
  if int_eq locked minus_one then log_locked else log_and_cut fd

unfoldable pub log_and_flag : ℤ → ℕ → M Bool
log_and_flag fd flags = do
  go_on ← if has_flag flags cpf_cloexec then log_cloexec fd else pure true
  if go_on then log_and_lock fd else pure false

-- The file is opened whether it is there or not.
unfoldable pub write_pid : Text → ℕ → M Bool
write_pid pid_file flags = do
  fd ← call (create_file pid_file)
  if int_eq fd minus_one
      then say (codes "could not write pid file....") false
      else log_and_flag fd flags

unfoldable pub remove_pid : Text → M Bool
remove_pid pid_file = do
  r ← call (remove pid_file)
  pure (if not (int_eq r (pos 0)) then true else false)

-- The facade's `remove_pid` returns the opposite of the function in cci_daemonize.cpp, on every system, by
-- the same call: true exactly when the file is still there.
pub remove_pid_opposite :
    (pid_file : Text) (env : Env) (past : List Call)
    → (b : Bool) × (PidFile.remove_pid pid_file env past ≡ (returned b, remove pid_file ∷ past))
      × (remove_pid pid_file env past ≡ (returned (not b), remove pid_file ∷ past))
unfolding remove_pid PidFile.remove_pid
remove_pid_opposite pid_file env past =
    elim (Bool-cases (int_eq (env.answer past (remove pid_file)) (pos 0))) [
      | inl e ↦ (true, rw e refl, rw e refl)
      | inr e ↦ (false, rw e refl, rw e refl)
    ]

log_locked_false : (env : Env) (past : List Call) → ¬ Runs env past log_locked
unfolding log_locked
log_locked_false env past h = ground arith

-- The answers of the system to the facade's `write_pid` without flags.
module _ (pid_file : Text) (env : Env) (past : List Call) where
  abbrev pub the_fd : ℤ
  the_fd = env.answer past (create_file pid_file)

  abbrev pub after_open : List Call
  after_open = create_file pid_file ∷ past

  abbrev pub lock_call : Call
  lock_call = set_lock the_fd f_wrlck seek_set 0 0

  abbrev pub after_lock : List Call
  after_lock = lock_call ∷ after_open

  abbrev pub after_cut : List Call
  after_cut = print (codes "writing pid file....") ∷ ftruncate the_fd 0 ∷ after_lock

  abbrev pub the_line : Text
  the_line = pid_line (env.answer after_cut getpid)

  abbrev pub IsWritten : Type 0
  IsWritten =
      not (
        int_eq (env.answer (getpid ∷ after_cut) (write_file the_fd the_line))
          (pos (length the_line)))
      ≡ false

  abbrev pub IsCut : Type 0
  IsCut = (int_eq (env.answer after_lock (ftruncate the_fd 0)) minus_one ≡ false) × IsWritten

  abbrev pub IsLocked : Type 0
  IsLocked = (int_eq (env.answer after_open lock_call) minus_one ≡ false) × IsCut

  abbrev pub Succeeds : Type 0
  Succeeds = (int_eq the_fd minus_one ≡ false) × IsLocked

  log_and_put_iff : Runs env (ftruncate the_fd 0 ∷ after_lock) (log_and_put the_fd) ↔ IsWritten
  unfolding log_and_put
  log_and_put_iff = last_iff _ _ env _ (said_false (codes "writing to pid file failed") env past)

  log_and_cut_iff : Runs env after_lock (log_and_cut the_fd) ↔ IsCut
  unfolding log_and_cut
  log_and_cut_iff =
      guard_iff (int_eq (env.answer after_lock (ftruncate the_fd 0)) minus_one) (say _ false)
        (log_and_put the_fd) env _ (said_false (codes "could not truncate pid file") env past)
        log_and_put_iff

  log_and_lock_iff : Runs env after_open (log_and_lock the_fd) ↔ IsLocked
  unfolding log_and_lock
  log_and_lock_iff =
      guard_iff (int_eq (env.answer after_open lock_call) minus_one) log_locked (log_and_cut the_fd)
        env after_lock (log_locked_false env after_lock) log_and_cut_iff

  -- Without flags, the facade's `write_pid` returns true exactly when the file can be opened, locked and
  -- truncated, and the process id's line is written whole; whether the file is there is not asked.
  pub facade-write_pid_iff : Runs env past (write_pid pid_file 0) ↔ Succeeds
  unfolding write_pid log_and_flag
  facade-write_pid_iff =
      guard_iff (int_eq the_fd minus_one) (say (codes "could not write pid file....") false)
        (log_and_lock the_fd) env after_open
        (said_false (codes "could not write pid file....") env after_open) log_and_lock_iff
