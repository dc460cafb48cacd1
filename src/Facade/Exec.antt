-- ===== src/Facade/Exec.antt =====
-- `daemon_default_exec` of cci_daemon/src/core/cci_daemon.cpp, the loop of the default daemon.
use cci_daemon.Base.{ℕ, Bool, true, false, List, [], ◌∷◌, ◌==◌, if◌then◌else◌, Text, codes}
use cci_daemon.Host.{Call, print, Env, Outcome, returned, exited, spent}
use cci_daemon.Facade.PidFile.{write_pid}
use cci_daemon.Facade.{
  done, System, E, pure, exit, crash, ◌>>=◌, ◌>>◌, log_message, open_log, read_config_file,
  set_opened,
}

-- One return of `sleep`: the seconds left, whether SIGHUP has come since `hup_received` was looked at, and what
-- the file system gives then.
pub record Wake : Type 0 where
  pub left : ℕ
  pub hup : Bool
  pub sys : System

abbrev pub sleep_time : ℕ
sleep_time = 15

-- The file is closed, the pointer to it stays.
abbrev pub close_log : E (Unit {0})
close_log f = (f, done tt)

unfoldable pub reload : System → E (Unit {0})
reload sys = do close_log; open_log sys; read_config_file sys; pure tt

abbrev pub working : Text
working = codes "working hard....."

-- A round of the loop from the return of `sleep` on; the value is the next `unslept`.
unfoldable pub hear : Wake → E (Unit {0})
hear w = if w.hup then reload w.sys else pure tt

unfoldable pub tick : Wake → E ℕ
tick w = if w.left == 0 then (do log_message working; pure sleep_time) else pure w.left

unfoldable pub exec_round : Wake → E ℕ
exec_round w f = if f.opened then (hear w >>= λ _. tick w) f else (f, done w.left)

-- The loop, as long as `sleep` returns.
unfoldable pub exec_loop : List Wake → ℕ → E ℕ
exec_loop [] unslept = pure unslept
exec_loop (w ∷ ws) unslept = do next ← exec_round w; exec_loop ws next

-- `chromatic_terminate`; `dump` is that EF_DUMPCORE asks for a core.
unfoldable pub chromatic_terminate : Bool → E (Unit {0})
chromatic_terminate dump = if dump then crash else exit 1

abbrev pub default_text : Text
default_text = codes "cci_daemon.....using default module.....william k. johnson 2017"

unfoldable pub open_default : System → E (Unit {0})
open_default sys f =
    if f.opened
    then (f, done tt)
    else (do
      ok ← open_log sys
      set_opened ok
      if ok then (do log_message default_text; read_config_file sys; pure tt) else pure tt)
        f

-- What the calls give that set the handlers, the file for the pid, and the system as `write_pid` meets it.
pub record Starts : Type 0 where
  pub dump : Bool
  pub sigaction : Bool
  pub signal : Bool
  pub pid_path : Text
  pub env : Env

abbrev pub set_handler : Bool → Bool → E (Unit {0})
set_handler dump ok = if ok then pure tt else chromatic_terminate dump

-- The messages among calls, which stand newest first.
abbrev pub log_printed : List Call → E (Unit {0})
log_printed [] = pure tt
log_printed (print msg ∷ past) = do log_printed past; log_message msg; pure tt
log_printed (_ ∷ past) = log_printed past

-- `write_pid` gives a Boolean: it neither exits nor has any fuel.
abbrev pub after_pid : Outcome Bool → E (Unit {0})
after_pid (returned true) = pure tt
after_pid (returned false) = do log_message (codes "pid write failed"); pure tt
after_pid (exited status) = exit status
after_pid spent = pure tt

-- What `write_pid` prints goes to the log.
unfoldable pub note_pid : Text → Env → E (Unit {0})
note_pid pid_path env =
    let written = write_pid pid_path 0 env [] in do log_printed written.1; after_pid written.0

unfoldable pub daemon_default_exec : System → Starts → List Wake → E ℕ
daemon_default_exec sys s wakes = do
  open_default sys
  set_handler s.dump s.sigaction
  set_handler s.dump s.signal
  note_pid s.pid_path s.env
  exec_loop wakes sleep_time

-- `sigterm_handler`; what it says goes to the system's log.
unfoldable pub sigterm_handler : E (Unit {0})
sigterm_handler = exit 0

-- `sigsev_handler`, which nothing sets; `log_p` is that it has a stream to print to, which is never so there.
unfoldable pub sigsev_handler : Bool → E (Unit {0})
sigsev_handler log_p = if log_p then exit 1 else pure tt

-- The default daemon until SIGTERM interrupts `sleep` after these returns of it.
unfoldable pub exec_until_sigterm : System → Starts → List Wake → E (Unit {0})
exec_until_sigterm sys s wakes = daemon_default_exec sys s wakes >>= λ unslept. sigterm_handler
