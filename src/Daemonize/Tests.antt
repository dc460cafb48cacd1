-- ===== src/Daemonize/Tests.antt =====
-- Runs of the daemon on small systems.
use cci_daemon.Base.{◌≡◌, refl, arith, ◌↔◌, true, List, [], ◌∷◌, codes, ℤ, pos, minus_one, length}
use cci_daemon.Host.{
  Call, fork, setsid, sysconf_open_max, getpid, umask, close, chdir, open_file, create_file,
  stat_file, dup2, write_file, Env, returned, spent,
}
use cci_daemon.Daemonize.{daemonize_}
use cci_daemon.Daemonize.Machine.{Forks, daemonize_straight, daemonize-straight, daemonize_spins}
use cci_daemon.Daemonize.Effects.{
  Reopens, before_close, after_close, daemonize-calls, daemonize-Forks,
}
use cci_daemon.Daemonize.PidLine.{IsDigit, value, value-pid_line}
use cci_daemon.Base.{Text, ◌++◌, All}
use cci_daemon.Daemonize.PidFile.{
  pid_line, write_pid, print_long, remove_pid, Runs, Succeeds, write_pid_iff,
}

-- Both forks make the child, three descriptors may be open, the pid file is absent, and all calls succeed.
abbrev answer : List Call → Call → ℤ
answer past setsid = pos 77
answer past sysconf_open_max = pos 3
answer past getpid = pos 4096
answer past (stat_file file) = minus_one
answer past (create_file file) = pos 5
answer past (dup2 from to) = pos to
answer past (write_file fd text) = pos (length text)
answer past c = pos 0

abbrev host : Env
host = record { answer = answer; errno = λ past. 0 }

forks : Forks host []
forks = record { first = refl; session = refl; second = refl }

printed : print_long (pos 4096) ≡ codes "4096\n"
unfolding print_long
printed = refl

removed : (remove_pid (codes "cci.pid") host []).0 ≡ returned true
unfolding remove_pid
removed = refl

run : daemonize_ 8 0 host [] ≡ (
  returned (pos 0),
  dup2 0 2
      ∷ dup2 0 1
      ∷ open_file (codes "/dev/null")
      ∷ close 0
      ∷ close 2
      ∷ close 1
      ∷ close 0
      ∷ sysconf_open_max
      ∷ chdir (codes "/")
      ∷ umask 0
      ∷ fork
      ∷ setsid
      ∷ fork
      ∷ [],
)
unfolding after_close
run =
    daemonize-calls 0 host 8 [] refl (omega arith) forks
      (record { opened = refl; out = refl; err = refl })

daemonize-straight_example : daemonize_ 8 0 host [] ≡ daemonize_straight 0 host []
daemonize-straight_example = daemonize-straight 0 8 host [] refl (omega arith)

reopens : Reopens host (after_close host (before_close 0 []))
unfolding after_close
reopens = record { opened = refl; out = refl; err = refl }

returns_zero : (daemonize_ 8 0 host []).0 ≡ returned (pos 0)
returns_zero = rw (daemonize-calls 0 host 8 [] refl (omega arith) forks reopens) refl

daemonize-Forks_example : Forks host []
daemonize-Forks_example = daemonize-Forks 0 host 8 [] refl (omega arith) returns_zero

daemonize_spins_example : (daemonize_ 100 2 host []).0 ≡ spent
daemonize_spins_example = daemonize_spins 2 100 host [] refl forks

write_pid_iff_example :
    Runs host [] (write_pid (codes "cci.pid") 0) ↔ Succeeds (codes "cci.pid") host []
write_pid_iff_example = write_pid_iff (codes "cci.pid") host []

value-pid_line_example :
    (s : Text) × (pid_line (pos 4096) ≡ s ++ b'\n' ∷ []) × All IsDigit s × (value s ≡ 4096)
value-pid_line_example = value-pid_line 4096 (omega arith)
