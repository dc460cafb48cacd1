-- ===== src/Daemonize.antt =====
-- include/cci_daemonize.h and cci_daemon/src/core/cci_daemonize.cpp: the state machine `daemonize_`,
-- and the functions that take its steps one by one.
pub mod Machine
pub mod Effects
pub mod Steps
pub mod PidFile
pub mod PidLine
mod Tests
use cci_daemon.Base.{
  ℕ, zero, suc, ◌+◌, ◌/◌, ◌%◌, Bool, true, false, not, List, [], ◌∷◌, ◌==◌, if◌then◌else◌, Text,
  codes, ℤ, pos, negsuc, minus_one, int_eq,
}
use cci_daemon.Host.{
  Call, fork, setsid, sysconf_open_max, umask, close, chdir, open_file, dup2, Env, Outcome,
  returned, out_of_fuel, M, pure, exit, ◌>>=◌, ◌>>◌, call,
}

pub data DaemonProc : Type 0 where
  fork_background_proc fork_no_session_leader make_session_leader : DaemonProc
  clear_file_create_mask change_to_root_dir close_all_open_files : DaemonProc
  reopen_streams_dev_null daemonized error success : DaemonProc

-- The bits of `flags`.
abbrev pub no_chdir : ℕ
no_chdir = 1

abbrev pub no_close_files : ℕ
no_close_files = 2

abbrev pub no_reopen_std_fds : ℕ
no_reopen_std_fds = 4

abbrev pub no_umask_0 : ℕ
no_umask_0 = 8

abbrev pub max_handles : ℕ
max_handles = 8192

-- `flags & bit`, as a test, for a power of two.
abbrev pub has_flag : ℕ → ℕ → Bool
has_flag flags bit = (flags / bit) % 2 == 1

-- `switch( fork() )`: the parent's process ends.
abbrev pub after_fork : DaemonProc → ℤ → M DaemonProc
after_fork next (negsuc zero) = pure error
after_fork next (pos zero) = pure next
after_fork next _ = exit 0

-- `for( fd = from; ...; fd++ ) { close( fd ); }`, for so many rounds.
unfoldable pub close_from : ℕ → ℕ → M (Unit {0})
close_from zero fd = pure tt
close_from (suc rounds) fd = do call (close fd); close_from rounds (fd + 1)

abbrev pub open_max : ℤ → ℕ
open_max (pos n) = n
open_max (negsuc zero) = max_handles
open_max (negsuc (suc n)) = 0

unfoldable pub close_all : M (Unit {0})
close_all = do maxfd ← call sysconf_open_max; close_from (open_max maxfd) 0

abbrev pub dev_null : Text
dev_null = codes "/dev/null"

-- The streams 0, 1 and 2 on /dev/null; the first call that fails ends it.
unfoldable pub reopen_streams : M DaemonProc
reopen_streams = do
  call (close 0)
  fd ← call (open_file dev_null)
  if not (int_eq fd (pos 0)) then pure error else do
    out ← call (dup2 0 1)
    if not (int_eq out (pos 1)) then pure error else do
      err ← call (dup2 0 2)
      if not (int_eq err (pos 2)) then pure error else pure daemonized

-- One round of the loop of `daemonize_`.
unfoldable pub daemonize_step : ℕ → DaemonProc → M DaemonProc
daemonize_step flags fork_background_proc = do r ← call fork; after_fork make_session_leader r
daemonize_step flags make_session_leader = do
  r ← call setsid
  if int_eq r minus_one then pure error else pure fork_no_session_leader
daemonize_step flags fork_no_session_leader = do r ← call fork; after_fork clear_file_create_mask r
daemonize_step flags clear_file_create_mask =
    if has_flag flags no_umask_0
    then pure change_to_root_dir
    else do call (umask 0); pure change_to_root_dir
daemonize_step flags change_to_root_dir =
    if has_flag flags no_chdir
    then pure close_all_open_files
    else do call (chdir (codes "/")); pure close_all_open_files
daemonize_step flags close_all_open_files =
    if has_flag flags no_close_files
    then pure close_all_open_files
    else do close_all; pure reopen_streams_dev_null
daemonize_step flags reopen_streams_dev_null =
    if has_flag flags no_reopen_std_fds then pure daemonized else reopen_streams
daemonize_step flags dp = pure dp

-- `while( dp != dp_error ) { ...; if ( dp == dp_daemonized ) { break; } }` and the `return`, with fuel.
unfoldable pub daemonize_loop : ℕ → ℕ → DaemonProc → M ℤ
daemonize_loop zero flags dp = out_of_fuel
daemonize_loop (suc fuel) flags error = pure minus_one
daemonize_loop (suc fuel) flags daemonized = pure (pos 0)
daemonize_loop (suc fuel) flags dp = do
  next ← daemonize_step flags dp
  daemonize_loop fuel flags next

unfoldable pub daemonize_ : ℕ → ℕ → M ℤ
daemonize_ fuel flags = daemonize_loop fuel flags fork_background_proc
