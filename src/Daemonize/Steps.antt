-- ===== src/Daemonize/Steps.antt =====
-- The functions of cci_daemon/src/core/cci_daemonize.cpp that take one step of `daemonize_` each, and
-- how their results differ from it.
use cci_daemon.Base.{
  ℕ, zero, ◌≡◌, refl, true, not, List, if◌then◌else◌, codes, ℤ, pos, negsuc, minus_one, int_eq,
}
use cci_daemon.Host.{
  Call, fork, setsid, umask, close, chdir, open_file, dup2, Env, returned, M, pure, exit, ◌>>=◌,
  ◌>>◌, call,
}
use cci_daemon.Daemonize.{
  DaemonProc, error, success, has_flag, no_chdir, no_close_files, no_reopen_std_fds, no_umask_0,
  close_all, dev_null,
}

pub make_session_leader : M DaemonProc
make_session_leader = do r ← call setsid; pure (if int_eq r minus_one then error else success)

-- `switch( fork() )` of the next two functions.
abbrev child_or_error : ℤ → M DaemonProc
child_or_error (negsuc zero) = pure error
child_or_error (pos zero) = pure success
child_or_error _ = exit 0

pub make_into_background : M DaemonProc
make_into_background = do r ← call fork; child_or_error r

pub make_fork_no_session_leader : M DaemonProc
make_fork_no_session_leader = do r ← call fork; child_or_error r

unfoldable pub clear_file_create_mask : ℕ → M DaemonProc
clear_file_create_mask flags =
    if not (has_flag flags no_umask_0) then (do call (umask 0); pure success) else pure error

unfoldable pub close_all_open_files : ℕ → M DaemonProc
close_all_open_files flags =
    if has_flag flags no_close_files then pure success else do close_all; pure success

-- `if( r != expected ) { dp = dp_error; }`; the next call is made all the same.
abbrev keep_or_error : DaemonProc → ℤ → ℤ → DaemonProc
keep_or_error dp r expected = if not (int_eq r expected) then error else dp

unfoldable pub reopen_all : M DaemonProc
reopen_all = do
  call (close 0)
  fd ← call (open_file dev_null)
  out ← call (dup2 0 1)
  err ← call (dup2 0 2)
  pure (keep_or_error (keep_or_error (keep_or_error success fd (pos 0)) out (pos 1)) err (pos 2))

unfoldable pub reopen_streams_to_dev_null : ℕ → M DaemonProc
reopen_streams_to_dev_null flags =
    if not (has_flag flags no_reopen_std_fds) then reopen_all else pure success

unfoldable pub go_to_root : M DaemonProc
go_to_root = do ret ← call (chdir (codes "/")); pure (if int_eq ret (pos 0) then success else error)

unfoldable pub cd_to_root : ℕ → M DaemonProc
cd_to_root flags = if not (has_flag flags no_chdir) then go_to_root else pure error

-- With all four flags set no step makes a call; closing the descriptors and reopening the streams
-- report success then, but the mask and the directory report an error.
pub steps_off :
    (flags : ℕ) (env : Env) (past : List Call)
    → has_flag flags no_close_files ≡ true
    → has_flag flags no_reopen_std_fds ≡ true
    → has_flag flags no_umask_0 ≡ true
    → has_flag flags no_chdir ≡ true
    → (close_all_open_files flags env past ≡ (returned success, past))
      × (reopen_streams_to_dev_null flags env past ≡ (returned success, past))
      × (clear_file_create_mask flags env past ≡ (returned error, past))
      × (cd_to_root flags env past ≡ (returned error, past))
unfolding close_all_open_files reopen_streams_to_dev_null clear_file_create_mask cd_to_root
steps_off flags env past files streams mask dir =
    (rw files refl, rw streams refl, rw mask refl, rw dir refl)
