-- ===== src/Facade/ExecTests.antt =====
-- A run of the default daemon: it sleeps to its end, then SIGHUP comes, then it sleeps to its end again.
use cci_daemon.Base.{
  refl, true, false, none, some, List, [], ◌∷◌, ◌++◌, ◌<◌, ◌≤◌, codes, c_string, arith, ℤ, pos,
  minus_one, ◌≡◌,
}
use cci_daemon.Facade.{System, Facade}
use cci_daemon.Facade.Exec.{
  Wake, Starts, sleep_time, default_text, daemon_default_exec, exec_until_sigterm,
}
use cci_daemon.Host.{Call, set_lock}
use cci_daemon.Daemonize.PidFile.{eagain}
use cci_daemon.Facade.PidLog.{shown, pid_messages}
use cci_daemon.Facade.Logged.{Logged, config_lines}
use cci_daemon.Facade.Loop.{Exited, Sanes, all_lines, last_sleep, daemon_default_exec-Logged}

abbrev facade : Facade
facade = record {
  lib_ref = none;
  unmake_kernel = none;
  context = record { pm = []; kernel_ref = none };
  heap = record { instance_ptr = none; fresh = 1; live = [] };
  log_fp = false;
  opened = false;
  log = [];
}

abbrev system : System
system = record {
  log_accessible = true;
  log_opens = true;
  config_line = some (codes "conf");
  dlopen_kernel = none;
  dlopen_bootstrap = none;
  dlerror = [];
}

-- The pid file is locked by another daemon.
abbrev answer : List Call → Call → ℤ
answer past (set_lock fd type whence start len) = minus_one
answer past _ = pos 5

locked_messages :
    shown (
      pid_messages
        (codes "/var/run/cci-daemon.pid")
        (record { answer = answer; errno = λ past. eagain }))
    ≡ codes "pid file is locked; probably daemon is already running" ∷ codes "pid write failed" ∷ []
unfolding c_string
locked_messages = refl

abbrev starts : Starts
starts = record {
  dump = false;
  sigaction = true;
  signal = true;
  pid_path = codes "/var/run/cci-daemon.pid";
  env = record { answer = answer; errno = λ past. eagain };
}

abbrev wakes : List Wake
wakes =
    record { left = 0; hup = false; sys = system }
    ∷ record { left = 7; hup = true; sys = system }
    ∷ record { left = 0; hup = false; sys = system }
    ∷ []

wakes-Sanes : Sanes sleep_time wakes
wakes-Sanes = (
  record { short = omega arith; accessible = λ e. refl; opens = λ e. refl },
  (
    record { short = omega arith; accessible = λ e. refl; opens = λ e. refl },
    (record { short = omega arith; accessible = λ e. refl; opens = λ e. refl }, tt),
  ),
)

daemon_default_exec-Logged_example :
    Logged facade
      ((c_string default_text ∷ config_lines system.config_line)
        ++ (shown (pid_messages starts.pid_path starts.env) ++ all_lines wakes))
      (last_sleep sleep_time wakes)
      (daemon_default_exec system starts wakes facade)
    × (0 < last_sleep sleep_time wakes)
    × (last_sleep sleep_time wakes ≤ 15)
    × Exited facade
        ((c_string default_text ∷ config_lines system.config_line)
          ++ (shown (pid_messages starts.pid_path starts.env) ++ all_lines wakes))
        0
        (exec_until_sigterm system starts wakes facade)
daemon_default_exec-Logged_example =
    daemon_default_exec-Logged system starts wakes facade refl refl refl refl refl wakes-Sanes
