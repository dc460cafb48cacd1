-- ===== src/Main/Whole.antt =====
-- The main program with the coordinator, from the facade's constructor to its destructor.
use cci_daemon.Base.{
  ℕ, ◌≡◌, ◌≢◌, refl, Bool, true, false, not, ◌&&◌, Option, none, some, List, [], arith,
  if◌then◌else◌, Text, codes, ℤ, minus_one, int_eq_ne,
}
use cci_daemon.Kernel.{address}
use cci_daemon.Kernel.Context.{
  Heap, KernelContext, IsSingle, make_kernel, unmake_kernel, kernel_instance, dispose_instance,
  owned,
}
use cci_daemon.Facade.{
  returns, Ending, done, exited, KernelLib, System, cci_daemon_facade, bootstrap_coordinator,
  destruct, unmake, open_if_closed, open_log, read_config_file, log_message, try_load,
  load_coordinator, load_lib, map_kernel, map_lib, make_kernel_at, check_kernel_ref,
  get_function_pointer, keep_unmake, call_bootstrap,
}
use cci_daemon.Facade.Mapping.{kernel_lib}
use cci_daemon.Main.{main, run, run_proc, after_try, cmd_option_exists}

-- A system on which the log opens and both libraries are found; `r` is what the coordinator returns.
abbrev pub ready_system : Option Text → Text → ℤ → System
ready_system config_line dlerror r = record {
  log_accessible = true;
  log_opens = true;
  config_line = config_line;
  dlopen_kernel = some kernel_lib;
  dlopen_bootstrap = some (record { bootstrap_default_coordinator = address (returns r) });
  dlerror = dlerror;
}

booted_ends :
    (found_lib : Option KernelLib) (found_ref : Option ℕ)
    (found_unmake : Option (Heap → KernelContext → Heap)) (heap : Heap) (config_line : Option Text)
    (dlerror : Text) (r : ℤ)
    → (bootstrap_coordinator
        (ready_system config_line dlerror r)
        (cci_daemon_facade found_lib found_ref found_unmake heap)).1
      ≡ done tt
unfolding cci_daemon_facade bootstrap_coordinator open_if_closed open_log read_config_file
    log_message try_load load_coordinator load_lib map_kernel map_lib make_kernel_at
    check_kernel_ref get_function_pointer keep_unmake call_bootstrap make_kernel
booted_ends found_lib found_ref found_unmake heap none dlerror r = refl
booted_ends found_lib found_ref found_unmake heap (some line) dlerror r = refl

module _ (found_lib : Option KernelLib) (found_ref : Option ℕ)
    (found_unmake : Option (Heap → KernelContext → Heap)) (dlerror : Text) (r : ℤ) where
  freed :
      (config_line : Option Text) (i : Option ℕ) (n : ℕ) (l : List ℕ)
      → l ≡ owned i
      → let heap : Heap = record { instance_ptr = i; fresh = n; live = l } in
        (destruct
          (bootstrap_coordinator
            (ready_system config_line dlerror r)
            (cci_daemon_facade found_lib found_ref found_unmake heap)).0).0.heap.live
        ≡ []
  unfolding cci_daemon_facade bootstrap_coordinator open_if_closed open_log read_config_file
      log_message try_load load_coordinator load_lib map_kernel map_lib make_kernel_at
      check_kernel_ref get_function_pointer keep_unmake call_bootstrap make_kernel kernel_instance
      destruct unmake unmake_kernel dispose_instance
  freed none none n l e = rw e (ground arith)
  freed none (some k) n l e = rw e (ground arith)
  freed (some line) none n l e = rw e (ground arith)
  freed (some line) (some k) n l e = rw e (ground arith)

daemon_or_not :
    (daemonize : Bool)
    → after_try (if daemonize && false then exited 1 else done tt)
      ≡ record { deleted = 1; status = some 0 }
unfolding after_try
daemon_or_not false = refl
daemon_or_not true = refl

-- The main program with the option `-a`, on a system on which the log opens and the repository's kernel and a
-- coordinator are found, where daemonizing does not fail: once the coordinator has returned, whatever it returns, the
-- facade is deleted once, which deletes the kernel, and the process ends with status 0. What the facade's
-- constructor finds in the uninitialised context does not matter then. At most the instance of the kernel is alive
-- before.
pub main-bootstrap_coordinator :
    (found_lib : Option KernelLib) (found_ref : Option ℕ)
    (found_unmake : Option (Heap → KernelContext → Heap)) (heap : Heap) (config_line : Option Text)
    (dlerror : Text) (r : ℤ) (args : List Text) (daemonized : ℤ) (exec : Ending (Unit {0}))
    → IsSingle heap
    → cmd_option_exists args (codes "-a") ≡ true
    → daemonized ≢ minus_one
    → let booted =
        bootstrap_coordinator
          (ready_system config_line dlerror r)
          (cci_daemon_facade found_lib found_ref found_unmake heap) in
      (main args daemonized booted.1 exec ≡ record { deleted = 1; status = some 0 })
      × ((destruct booted.0).0.heap.live ≡ [])
unfolding main run run_proc after_try
main-bootstrap_coordinator found_lib found_ref found_unmake heap config_line dlerror r args
      daemonized exec s a d =
    (
      rw
          (
            booted_ends found_lib found_ref found_unmake heap config_line dlerror r,
            a,
            int_eq_ne daemonized minus_one d,
          )
          (daemon_or_not (not (cmd_option_exists args (codes "-t")))),
      freed found_lib found_ref found_unmake dlerror r config_line heap.instance_ptr heap.fresh
          heap.live s,
    )
