-- ===== src/Main/Tests.antt =====
-- Command lines.
use cci_daemon.Base.{◌≡◌, none, some, true, refl, List, [], ◌∷◌, Text, codes, pos}
use cci_daemon.Kernel.Context.{Heap}
use cci_daemon.Facade.{done, Facade, cci_daemon_facade, bootstrap_coordinator, destruct, Ending}
use cci_daemon.Main.{main, get_cmd_option, cmd_option_exists, find_option}
use cci_daemon.Main.Whole.{ready_system, main-bootstrap_coordinator}

abbrev line : List Text
line = codes "cci-daemon" ∷ codes "-f" ∷ codes "x.conf" ∷ codes "-a" ∷ []

file_given : get_cmd_option line (codes "-f") ≡ some (codes "x.conf")
unfolding get_cmd_option find_option
file_given = refl

-- The option stands last, so nothing is behind it.
last_option : get_cmd_option line (codes "-a") ≡ none
unfolding get_cmd_option find_option
last_option = refl

a_given : cmd_option_exists line (codes "-a") ≡ true
unfolding cmd_option_exists find_option
a_given = refl

abbrev heap : Heap
heap = record { instance_ptr = none; fresh = 1; live = [] }

abbrev ran : Facade × Ending (Unit {0})
ran =
    bootstrap_coordinator (ready_system (some (codes "conf")) [] (pos 1))
      (cci_daemon_facade none (some 77) none heap)

main-bootstrap_coordinator_example :
    (main line (pos 0) ran.1 (done tt) ≡ record { deleted = 1; status = some 0 })
    × ((destruct ran.0).0.heap.live ≡ [])
main-bootstrap_coordinator_example =
    main-bootstrap_coordinator none (some 77) none heap (some (codes "conf")) [] (pos 1) line
      (pos 0) (done tt) refl a_given (λ e. cc)
