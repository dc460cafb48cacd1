-- ===== src/Meta/Tests.antt =====
-- Runs of the meta daemon.
use cci_daemon.Base.{◌≡◌, refl, ◌+◌, suc, List, [], ◌∷◌, codes, ℤ, pos, minus_one}
use cci_daemon.Host.{Call, fork, umask, chdir, sleep, Env, exited, spent}
use cci_daemon.Meta.{configure_init, proc_init, daemonize}
use cci_daemon.Meta.Start.{init_straight, configure_init-straight, daemonize_foreground}
use cci_daemon.Meta.Work.{after_rounds, registered, term, proc_init-Ends}

-- Every call succeeds, and both forks make the child.
abbrev quiet : Env
quiet = record { answer = λ past c. pos 0; errno = λ past. 0 }

-- No process can be made.
abbrev answer : List Call → Call → ℤ
answer past fork = minus_one
answer past c = pos 0

abbrev full : Env
full = record { answer = answer; errno = λ past. 0 }

-- A SIGTERM comes in the third round.
abbrev third : List Call → Call → ℤ
third (_ ∷ _ ∷ _ ∷ _ ∷ _ ∷ _ ∷ _) (sleep n) = pos 15
third past c = pos 0

abbrev ending : Env
ending = record { answer = third; errno = λ past. 0 }

configure_init-straight_example : configure_init 4 quiet [] ≡ init_straight quiet []
configure_init-straight_example = configure_init-straight 0 quiet []

daemonize_foreground_example :
    daemonize 4 10 full [] ≡ proc_init 10 full (chdir (codes "/") ∷ fork ∷ umask 0 ∷ [])
daemonize_foreground_example = daemonize_foreground 2 10 full [] refl

proc_init-Ends_example :
    (proc_init 2 ending [] ≡ (spent, after_rounds 2 (registered [])))
    × (proc_init (2 + suc 7) ending [] ≡ (exited 1, sleep 5 ∷ after_rounds 2 (registered [])))
proc_init-Ends_example = proc_init-Ends 15 1 2 7 ending [] term (refl, (refl, tt)) refl
