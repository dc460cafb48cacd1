-- ===== src/Coordinator/Signals.antt =====
-- How the coordinator ends, and what becomes of the facade.
use cci_daemon.Base.{
  ℕ, ◌≡◌, ◌≢◌, ◌⊎◌, inl, inr, refl, ap, ◌∙◌, Bool, true, false, Option, none, some, List, [], ◌∷◌,
  arith, ◌==◌, ◌||◌, if◌then◌else◌, Text, ℤ, pos, int_eq, Bool-cases, ==_iff,
}
use cci_daemon.Facade.{Facade, Ending, done, thrown, thrown_other, exited, crashed, destruct}
use cci_daemon.Coordinator.{
  sigint, sigsegv, sigterm, Event, timeout, signal, Framework, Coordinator, Finish, returned, ended,
  aborted, shuts, handle_signal, run_event_loop, start_events, open_services,
  bootstrap_default_coordinator, after_loop, shut_down, delete_ptr, is_done,
}

-- The first signal that the handler does not pass over.
abbrev pub first_fatal : List Event → Option ℕ
first_fatal [] = none
first_fatal (timeout ∷ events) = first_fatal events
first_fatal (signal signum ∷ events) =
    let later = first_fatal events in
    if signum == sigsegv || shuts signum then some signum else later

abbrev pub handled : Option ℕ → Coordinator → Coordinator × Option Finish
handled none c = (c, none)
handled (some signum) c = handle_signal signum c

abbrev fatal : ℕ → Bool
fatal signum = signum == sigsegv || shuts signum

handle_passed :
    (signum : ℕ) (c : Coordinator) → fatal signum ≡ false → handle_signal signum c ≡ (c, none)
unfolding handle_signal
handle_passed signum c e = ground arith

handle_fatal :
    (signum : ℕ) (c : Coordinator)
    → fatal signum ≡ true
    → (how : Finish) × ((handle_signal signum c).1 ≡ some how)
unfolding handle_signal
handle_fatal signum c e = elim (Bool-cases (signum == sigsegv)) [
  | inl s ↦ (ended 1, rw s refl)
  | inr s ↦ ((shut_down c).1, ground arith)
]

pub run_event_loop-first_fatal :
    (events : List Event) (c : Coordinator)
    → run_event_loop events c ≡ handled (first_fatal events) c
unfolding run_event_loop
run_event_loop-first_fatal [] c = refl
run_event_loop-first_fatal (timeout ∷ events) c = run_event_loop-first_fatal events c
run_event_loop-first_fatal (signal signum ∷ events) c = elim (Bool-cases (fatal signum)) [
  | inl t ↦ let (how, e) = handle_fatal signum c t in rw (t, e) refl
  | inr t ↦ rw (t, handle_passed signum c t) (run_event_loop-first_fatal events c)
]

first_fatal-fatal : (events : List Event) (n : ℕ) → first_fatal events ≡ some n → fatal n ≡ true
first_fatal-fatal [] n e = cc
first_fatal-fatal (timeout ∷ events) n e = first_fatal-fatal events n e
first_fatal-fatal (signal signum ∷ events) n e = elim (Bool-cases (fatal signum)) [
  | inl t ↦ let same : some signum ≡ some n = rw t at e in cc (same, t)
  | inr t ↦ first_fatal-fatal events n (rw t at e)
]

-- How the function ends, and what the facade is then.
pub data Keeps (fw : Framework) (argv : List Text) (chroot_dir : Text) (f : Facade)
    : Coordinator × Finish → Type 0 where
  refused :
      (c : Coordinator)
      → (fw.changes_dir chroot_dir ≢ pos 0) ⊎ (fw.opens_config argv ≢ pos 0)
      → c.g_facade_ptr ≡ some f
      → Keeps fw argv chroot_dir f (c, returned (pos 1))
  no_thread :
      (c : Coordinator)
      → fw.activates ≢ pos 0
      → c.g_facade_ptr ≡ some f
      → Keeps fw argv chroot_dir f (c, aborted)
  loop_ends :
      (c : Coordinator)
      → first_fatal fw.events ≡ none
      → c.g_facade_ptr ≡ some f
      → Keeps fw argv chroot_dir f (c, returned (pos 0))
  violated :
      (c : Coordinator)
      → first_fatal fw.events ≡ some sigsegv
      → c.g_facade_ptr ≡ some f
      → Keeps fw argv chroot_dir f (c, ended 1)
  deleted :
      (c : Coordinator) (signum : ℕ)
      → first_fatal fw.events ≡ some signum
      → (signum ≡ sigint) ⊎ (signum ≡ sigterm)
      → (destruct f).1 ≡ done tt
      → c.g_facade_ptr ≡ some (destruct f).0
      → Keeps fw argv chroot_dir f (c, ended 0)
  no_unmake : (c : Coordinator) → (destruct f).1 ≢ done tt → Keeps fw argv chroot_dir f (c, aborted)

done-cases :
    (e : Ending (Unit {0}))
    → ((e ≡ done tt) × (is_done e ≡ true)) ⊎ ((e ≢ done tt) × (is_done e ≡ false))
done-cases (done u) = inl (refl, refl)
done-cases (thrown what) = inr ((λ q. cc q), refl)
done-cases (exited status) = inr ((λ q. cc q), refl)
done-cases (thrown_other is_exception) = inr ((λ q. cc q), refl)
done-cases crashed = inr ((λ q. cc q), refl)

-- The return of a call that is tested against 0.
nonzero : (r : ℤ) → int_eq r (pos 0) ≡ false → r ≢ pos 0
nonzero r e q = let t : int_eq r (pos 0) ≡ true = ap (λ (x : ℤ). int_eq x (pos 0)) q in cc (e, t)

module _ (fw : Framework) (argv : List Text) (chroot_dir : Text) (f : Facade) where
  shut_down-Keeps :
      (c : Coordinator) (signum : ℕ)
      → c.g_facade_ptr ≡ some f
      → first_fatal fw.events ≡ some signum
      → (signum ≡ sigint) ⊎ (signum ≡ sigterm)
      → Keeps fw argv chroot_dir f (shut_down c)
  unfolding shut_down delete_ptr
  shut_down-Keeps c signum p e t = elim (done-cases (destruct f).1) [
    | inl (d, b) ↦ rw (p, b) (deleted _ signum e t d refl)
    | inr (d, b) ↦ rw (p, b) (no_unmake _ d)
  ]

  handle_signal-Keeps :
      (c : Coordinator) (signum : ℕ)
      → c.g_facade_ptr ≡ some f
      → first_fatal fw.events ≡ some signum
      → Keeps fw argv chroot_dir f (after_loop (handle_signal signum c))
  unfolding handle_signal
  handle_signal-Keeps c signum p e = elim (Bool-cases (signum == sigsegv)) [
    | inl s ↦ rw s (violated c (e ∙ ap some ((==_iff signum sigsegv).0 s)) p)
    | inr s ↦
        let t : shuts signum ≡ true = ground (arith, first_fatal-fatal fw.events signum e) in
        rw (s, t) (shut_down-Keeps c signum p e (ground arith))
  ]

  handled-Keeps :
      (c : Coordinator) (o : Option ℕ)
      → c.g_facade_ptr ≡ some f
      → first_fatal fw.events ≡ o
      → Keeps fw argv chroot_dir f (after_loop (handled o c))
  handled-Keeps c none p e = loop_ends _ e p
  handled-Keeps c (some signum) p e = handle_signal-Keeps c signum p e

  start_events-Keeps :
      (c : Coordinator) → c.g_facade_ptr ≡ some f → Keeps fw argv chroot_dir f (start_events fw c)
  unfolding start_events
  start_events-Keeps c p = elim (Bool-cases (int_eq fw.activates (pos 0))) [
    | inr e ↦ rw e (no_thread _ (nonzero fw.activates e) p)
    | inl e ↦
        rw (e, run_event_loop-first_fatal fw.events)
          (handled-Keeps _ (first_fatal fw.events) p refl)
  ]

  open_services-Keeps :
      (c : Coordinator)
      → c.g_facade_ptr ≡ some f
      → Keeps fw argv chroot_dir f (open_services fw argv c)
  unfolding open_services
  open_services-Keeps c p = elim (Bool-cases (int_eq (fw.opens_config argv) (pos 0))) [
    | inr e ↦ rw e (refused _ (inr (nonzero (fw.opens_config argv) e)) p)
    | inl e ↦ rw e (start_events-Keeps _ p)
  ]

-- The coordinator returns to the facade that called it only with that facade as it was: 1 where it could not change
-- the directory or open the services, 0 where the reactor's loop has ended. The first SIGINT or SIGTERM, before any
-- SIGSEGV, destroys the facade and ends the process with status 0, and a SIGSEGV before them ends it with 1 and the
-- facade as it was. All else is an abort: the proactor's thread is not activated, or the facade's destructor does
-- not come to its end.
pub bootstrap_default_coordinator-Keeps :
    (fw : Framework) (argv : List Text) (chroot_dir : Text) (f : Facade)
    → Keeps fw argv chroot_dir f (bootstrap_default_coordinator fw argv chroot_dir f)
unfolding bootstrap_default_coordinator
bootstrap_default_coordinator-Keeps fw argv chroot_dir f =
    elim (Bool-cases (int_eq (fw.changes_dir chroot_dir) (pos 0))) [
      | inr e ↦ rw e (refused _ (inl (nonzero (fw.changes_dir chroot_dir) e)) refl)
      | inl e ↦ rw e (open_services-Keeps fw argv chroot_dir f _ refl)
    ]
