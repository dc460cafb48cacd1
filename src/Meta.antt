-- ===== src/Meta.antt =====
-- The meta daemon, of include/cci_meta_daemon.h and cci_daemon/src/meta-core/policies: a daemon put together
-- from policies, over the functions of Daemonize/Steps.antt. The operating system is that of Host.antt, with two
-- calls more: a handler that is registered for a signal, and `sleep`, whose answer is the signal that comes
-- while it sleeps, or 0.
pub mod Start
pub mod Work
mod Tests
use cci_daemon.Base.{
  ℕ, zero, suc, ◌+◌, Bool, true, false, not, List, [], ◌∷◌, ◌==◌, if◌then◌else◌, Text, codes, ℤ,
  pos, negsuc, minus_one, int_eq,
}
use cci_daemon.Host.{
  Call, fork, setsid, umask, register_handler, sleep, print, Env, Outcome, M, pure, exit,
  out_of_fuel, ◌>>=◌, ◌>>◌, call,
}
use cci_daemon.Daemonize.{
  DaemonProc, fork_background_proc, make_session_leader, fork_no_session_leader, daemonized, error,
  success, after_fork,
}
use cci_daemon.Daemonize.Steps.{
  clear_file_create_mask, close_all_open_files, reopen_streams_to_dev_null, cd_to_root,
}
use cci_daemon.Daemonize.PidFile.{remove_pid}

abbrev pub is_success : DaemonProc → Bool
is_success success = true
is_success _ = false

abbrev pub is_daemonized : DaemonProc → Bool
is_daemonized daemonized = true
is_daemonized _ = false

-- The constructors of both stream policies set `m_flags` to 0, whatever they are given.
abbrev pub m_flags : ℕ
m_flags = 0

-- `ace_stream_context`; on success the log goes to a file.
unfoldable pub configure_streams : M DaemonProc
configure_streams = clear_file_create_mask m_flags

-- `close_all_descriptors`.
unfoldable pub configure_descriptors : M DaemonProc
configure_descriptors = do
  mask ← clear_file_create_mask m_flags
  if not (is_success mask) then pure mask else do
    closed ← close_all_open_files m_flags
    if not (is_success closed) then pure closed else reopen_streams_to_dev_null m_flags

-- One round of the loop of `runtime_sys_init`.
unfoldable pub init_step : DaemonProc → M DaemonProc
init_step fork_background_proc = do r ← call fork; after_fork make_session_leader r
init_step make_session_leader = do
  r ← call setsid
  if int_eq r minus_one then pure error else pure fork_no_session_leader
init_step fork_no_session_leader = do r ← call fork; after_fork daemonized r
init_step dp = pure dp

-- The loop, with fuel; it has no result.
unfoldable pub init_loop : ℕ → DaemonProc → M (Unit {0})
init_loop zero dp = out_of_fuel
init_loop (suc fuel) error = pure tt
init_loop (suc fuel) dp = do
  next ← init_step dp
  if is_daemonized next then pure tt else init_loop fuel next

unfoldable pub configure_init : ℕ → M (Unit {0})
configure_init fuel = init_loop fuel fork_background_proc

unfoldable pub configure_environment : M DaemonProc
configure_environment = cd_to_root 0

abbrev pub sigint : ℕ
sigint = 2

abbrev pub sigsegv : ℕ
sigsegv = 11

abbrev pub sigterm : ℕ
sigterm = 15

-- `handle_signal` of a handler made for this signal.
unfoldable pub handle_signal : ℕ → M (Unit {0})
handle_signal signum =
    if signum == sigterm
    then exit 1
    else if signum == sigint
    then exit 0
    else if signum == sigsegv
    then exit 0
    else pure tt

-- `handle_pid`, which the handlers do not call.
unfoldable pub handle_pid : Text → M ℤ
handle_pid path_pid = do
  removed ← remove_pid path_pid
  if not removed
      then call (print (codes "....remove pid failed...s\n"))
      else call (print (codes "....removed pid file...\n"))

-- The signals that have a handler are passed to it.
unfoldable pub deliver : ℤ → M (Unit {0})
deliver (pos n) =
    if n == sigterm then handle_signal n else if n == sigint then handle_signal n else pure tt
deliver (negsuc n) = pure tt

-- The loop of `perform`, for so many rounds.
unfoldable pub work : ℕ → M (Unit {0})
work zero = out_of_fuel
work (suc rounds) = do
  signal ← call (sleep 5)
  deliver signal
  call (print (codes "....working.....\n"))
  work rounds

unfoldable pub proc_init : ℕ → M (Unit {0})
proc_init rounds = do call (register_handler sigterm); call (register_handler sigint); work rounds

-- The results of the policies are not looked at.
unfoldable pub daemonize : ℕ → ℕ → M (Unit {0})
daemonize fuel rounds = do
  configure_streams
  configure_init fuel
  configure_environment
  proc_init rounds

unfoldable pub cli : ℕ → M (Unit {0})
cli rounds = do configure_environment; proc_init rounds

-- The main program; no policy throws here, and the one of the end does nothing.
unfoldable pub meta_main : ℕ → ℕ → M ℤ
meta_main fuel rounds = do daemonize fuel rounds; pure (pos 0)
