-- ===== src/Coordinator/Tests.antt =====
-- A coordinator that is told to end after its timer has fired.
use cci_daemon.Base.{◌≡◌, refl, inr, none, List, [], ◌∷◌, Text, codes, pos, false}
use cci_daemon.Facade.{Facade, map_kernel, set_lib_ref, destruct}
use cci_daemon.Facade.Mapping.{kernel_lib}
use cci_daemon.Coordinator.{sigterm, timeout, signal, Framework, bootstrap_default_coordinator}
use cci_daemon.Coordinator.Signals.{Keeps, bootstrap_default_coordinator-Keeps}
use cci_daemon.Coordinator.Teardown.{TornDown, bootstrap-map_kernel}

abbrev framework : Framework
framework = record {
  changes_dir = λ dir. pos 0;
  opens_config = λ argv. pos 0;
  timer = pos 7;
  activates = pos 0;
  events = timeout ∷ signal 1 ∷ signal sigterm ∷ timeout ∷ [];
}

abbrev argv : List Text
argv = codes "daemon" ∷ []

abbrev facade : Facade
facade = record {
  lib_ref = none;
  unmake_kernel = none;
  context = record { pm = []; kernel_ref = none };
  heap = record { instance_ptr = none; fresh = 1; live = [] };
  log_fp = false;
  opened = false;
  log = [];
}

bootstrap_default_coordinator-Keeps_example :
    Keeps framework argv
      (codes "/srv")
      facade
      (bootstrap_default_coordinator framework argv (codes "/srv") facade)
bootstrap_default_coordinator-Keeps_example =
    bootstrap_default_coordinator-Keeps framework argv (codes "/srv") facade

bootstrap-map_kernel_example :
    TornDown
      (pos 7)
      argv
      (codes "/srv")
      (destruct (map_kernel (set_lib_ref kernel_lib facade).0).0).0
      (bootstrap_default_coordinator framework argv
        (codes "/srv")
        (map_kernel (set_lib_ref kernel_lib facade).0).0)
    × ((destruct (map_kernel (set_lib_ref kernel_lib facade).0).0).0.heap.live ≡ [])
bootstrap-map_kernel_example =
    bootstrap-map_kernel framework argv (codes "/srv") facade sigterm refl
      (record { changed = refl; opened = refl; activated = refl }) refl (inr refl)
