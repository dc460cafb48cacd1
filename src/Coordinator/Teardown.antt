-- ===== src/Coordinator/Teardown.antt =====
-- The coordinator over a facade that has mapped the repository's kernel.
use cci_daemon.Base.{
  ℕ, ◌≡◌, ◌⊎◌, refl, ap, true, false, some, List, [], ◌∷◌, ◌++◌, arith, ◌==◌, Text, ℤ, pos,
}
use cci_daemon.Kernel.Context.{IsSingle}
use cci_daemon.Facade.{Facade, done, map_kernel, set_lib_ref, destruct}
use cci_daemon.Facade.Mapping.{kernel_lib, destruct-map_kernel, destruct-map_kernel_done}
use cci_daemon.Coordinator.{
  sigint, sigsegv, sigterm, Action, open_trace, register_handler, chdir, open_config,
  schedule_timer, activate, resume, run_reactor, delete_facade, cancel_timer, join, fini_svcs,
  close_trace, end_reactor, end_proactor, Framework, Coordinator, Finish, ended, shuts, is_done,
  handle_signal, start_events, open_services, bootstrap_default_coordinator, shut_down, delete_ptr,
  after_loop,
}
use cci_daemon.Coordinator.Signals.{first_fatal, run_event_loop-first_fatal}

-- The framework comes up.
pub record ComesUp (fw : Framework) (argv : List Text) (chroot_dir : Text) : Type 0 where
  pub changed : fw.changes_dir chroot_dir ≡ pos 0
  pub opened : fw.opens_config argv ≡ pos 0
  pub activated : fw.activates ≡ pos 0

abbrev pub bring_up : List Text → Text → List Action
bring_up argv chroot_dir =
    open_trace
    ∷ register_handler sigint
    ∷ register_handler sigterm
    ∷ register_handler sigsegv
    ∷ chdir chroot_dir
    ∷ open_config argv
    ∷ schedule_timer
    ∷ activate
    ∷ resume
    ∷ run_reactor
    ∷ []

abbrev pub tear_down : ℤ → List Action
tear_down timer =
    delete_facade
    ∷ cancel_timer timer
    ∷ join (pos 0)
    ∷ fini_svcs
    ∷ close_trace
    ∷ end_reactor
    ∷ end_proactor
    ∷ []

-- The process has ended with status 0 after these calls, and the facade that is left is this one.
pub record TornDown (timer : ℤ) (argv : List Text) (chroot_dir : Text) (f : Facade)
    (run : Coordinator × Finish) : Type 0 where
  pub status : run.1 ≡ ended 0
  pub calls : run.0.actions ≡ bring_up argv chroot_dir ++ tear_down timer
  pub left : run.0.g_facade_ptr ≡ some f

module _ (fw : Framework) (argv : List Text) (chroot_dir : Text) (f : Facade)
    (d : (destruct f).1 ≡ done tt) where
  handle-TornDown :
      (c : Coordinator) (signum : ℕ)
      → c.g_facade_ptr ≡ some f
      → c.actions ≡ bring_up argv chroot_dir
      → c.ccifs_timer_id ≡ fw.timer
      → c.dw_thread_id ≡ pos 0
      → (signum ≡ sigint) ⊎ (signum ≡ sigterm)
      → TornDown fw.timer argv chroot_dir (destruct f).0 (after_loop (handle_signal signum c))
  unfolding handle_signal shut_down delete_ptr
  handle-TornDown c signum p a t w s =
      let x : (signum == sigsegv) ≡ false = ground arith in
      let y : shuts signum ≡ true = ground arith in
      let z : is_done (destruct f).1 ≡ true = ap is_done d in
      rw (x, y, p, z) (record { status = refl; calls = rw (a, t, w) refl; left = refl })

  bring_up-TornDown :
      (signum : ℕ)
      → ComesUp fw argv chroot_dir
      → first_fatal fw.events ≡ some signum
      → (signum ≡ sigint) ⊎ (signum ≡ sigterm)
      → TornDown fw.timer argv chroot_dir
          (destruct f).0
          (bootstrap_default_coordinator fw argv chroot_dir f)
  unfolding bootstrap_default_coordinator open_services start_events
  bring_up-TornDown signum u e s =
      rw (u.changed, u.opened, u.activated, run_event_loop-first_fatal fw.events, e)
        (handle-TornDown _ signum refl refl refl refl s)

-- Where the framework comes up over a facade that has mapped the repository's kernel, the first SIGINT or SIGTERM
-- that the reactor dispatches before any SIGSEGV ends the process with status 0, whatever else it dispatches: all
-- calls of the coordinator up to there are those that bring the framework up and those that tear it down, in this
-- order, each once, and no kernel is left alive, provided at most the instance was before the mapping.
pub bootstrap-map_kernel :
    (fw : Framework) (argv : List Text) (chroot_dir : Text) (f : Facade) (signum : ℕ)
    → IsSingle f.heap
    → ComesUp fw argv chroot_dir
    → first_fatal fw.events ≡ some signum
    → (signum ≡ sigint) ⊎ (signum ≡ sigterm)
    → let g = (map_kernel (set_lib_ref kernel_lib f).0).0 in
      TornDown fw.timer argv chroot_dir
        (destruct g).0
        (bootstrap_default_coordinator fw argv chroot_dir g)
      × ((destruct g).0.heap.live ≡ [])
bootstrap-map_kernel fw argv chroot_dir f signum h u e s = (
  bring_up-TornDown fw argv chroot_dir (map_kernel (set_lib_ref kernel_lib f).0).0
      (destruct-map_kernel_done f) signum u e s,
  (destruct-map_kernel f h).1,
)
