-- ===== src/Coordinator.antt =====
-- cci_daemon/src/coordinator/cci_daemon_bootstrap.cpp: `bootstrap_default_coordinator`, which brings up the framework
-- around the facade that has loaded it, and what its handlers do with signals. The framework is the parameter
-- `Framework`; what the reactor's loop dispatches is a list of events, and the loop ends with the list.
pub mod Signals
pub mod Teardown
mod Tests
use cci_daemon.Base.{
  ℕ, Bool, true, false, not, Option, none, some, List, [], ◌∷◌, ◌++◌, ◌==◌, ◌||◌, if◌then◌else◌,
  Text, codes, ℤ, pos, int_eq,
}
use cci_daemon.Facade.{Facade, Ending, done, thrown, thrown_other, exited, crashed, destruct}

abbrev pub sigint : ℕ
sigint = 2

abbrev pub sigsegv : ℕ
sigsegv = 11

abbrev pub sigterm : ℕ
sigterm = 15

-- The calls of the framework and the system, in their order; `join` and `cancel_timer` name what they wait for.
pub data Action : Type 0 where
  open_trace schedule_timer activate resume run_reactor close_config fini_svcs close_trace
        end_reactor end_proactor :
      Action
  delete_facade : Action
  register_handler : ℕ → Action
  chdir : Text → Action
  open_config : List Text → Action
  cancel_timer join : ℤ → Action

-- What a signal or the timer does; a signal comes in while the loop runs.
pub data Event : Type 0 where
  timeout : Event
  signal : ℕ → Event

pub record Framework : Type 0 where
  pub changes_dir : Text → ℤ
  pub opens_config : List Text → ℤ
  pub timer : ℤ
  pub activates : ℤ
  pub events : List Event

-- The file's static variables, and the calls that have been made. The facade is the object that
-- `g_facade_ptr` points to.
pub record Coordinator : Type 0 where
  pub g_facade_ptr : Option Facade
  pub dw_thread_id : ℤ
  pub ccifs_timer_id : ℤ
  pub actions : List Action

-- How the function ends: it returns, or the process does; `ACE_ASSERT` aborts it.
pub data Finish : Type 0 where
  returned : ℤ → Finish
  ended : ℕ → Finish
  aborted : Finish

abbrev pub does : List Action → Coordinator → Coordinator
does actions c = record c { actions = c.actions ++ actions }

abbrev pub is_done : Ending (Unit {0}) → Bool
is_done (done u) = true
is_done (thrown what) = false
is_done (exited status) = false
is_done (thrown_other is_exception) = false
is_done crashed = false

-- `delete g_facade_ptr`, where it is not null: the facade as its destructor leaves it, and whether that comes to its
-- end, which a null function pointer that it calls does not let it.
unfoldable pub delete_ptr : Option Facade → Coordinator → Coordinator × Bool
delete_ptr none c = (c, true)
delete_ptr (some f) c = (
  record c { g_facade_ptr = some (destruct f).0; actions = c.actions ++ delete_facade ∷ [] },
  is_done (destruct f).1,
)

-- SIGINT and SIGTERM.
unfoldable pub shut_down : Coordinator → Coordinator × Finish
shut_down c =
    let (c', deleted) = delete_ptr c.g_facade_ptr c in
    if deleted
    then (
      does
          (cancel_timer c'.ccifs_timer_id
            ∷ join c'.dw_thread_id
            ∷ fini_svcs
            ∷ close_trace
            ∷ end_reactor
            ∷ end_proactor
            ∷ [])
          c',
      ended 0,
    )
    else (c', aborted)

abbrev pub shuts : ℕ → Bool
shuts signum = signum == sigint || signum == sigterm

-- `handle_signal`; `none` is that the process goes on.
unfoldable pub handle_signal : ℕ → Coordinator → Coordinator × Option Finish
handle_signal signum c =
    if signum == sigsegv
    then (c, some (ended 1))
    else if shuts signum
    then (let (c', finish) = shut_down c in (c', some finish))
    else (c, none)

abbrev pub unless_ended :
    Option Finish → Coordinator → Coordinator × Option Finish → Coordinator × Option Finish
unless_ended none c rest = rest
unless_ended (some how) c rest = (c, some how)

-- `run_reactor_event_loop`: `handle_timeout` does nothing but say so.
unfoldable pub run_event_loop : List Event → Coordinator → Coordinator × Option Finish
run_event_loop [] c = (c, none)
run_event_loop (timeout ∷ events) c = run_event_loop events c
run_event_loop (signal signum ∷ events) c =
    let after = handle_signal signum c in
    unless_ended after.1 after.0 (run_event_loop events after.0)

abbrev pub after_loop : Coordinator × Option Finish → Coordinator × Finish
after_loop (c, none) = (does (close_config ∷ []) c, returned (pos 0))
after_loop (c, some how) = (c, how)

-- From the thread of the proactor on.
unfoldable pub start_events : Framework → Coordinator → Coordinator × Finish
start_events fw c =
    let activated = record c {
      dw_thread_id = fw.activates;
      actions = c.actions ++ activate ∷ [];
    } in
    if not (int_eq fw.activates (pos 0))
    then (activated, aborted)
    else after_loop (run_event_loop fw.events (does (resume ∷ run_reactor ∷ []) activated))

unfoldable pub open_services : Framework → List Text → Coordinator → Coordinator × Finish
open_services fw argv c =
    let opened = does (open_config argv ∷ []) c in
    if not (int_eq (fw.opens_config argv) (pos 0))
    then (opened, returned (pos 1))
    else start_events fw (record opened {
      ccifs_timer_id = fw.timer;
      actions = opened.actions ++ schedule_timer ∷ [];
    })

-- `chroot_dir` is the facade's.
unfoldable pub bootstrap_default_coordinator :
    Framework → List Text → Text → Facade → Coordinator × Finish
bootstrap_default_coordinator fw argv chroot_dir f =
    let c : Coordinator = record {
      g_facade_ptr = some f;
      dw_thread_id = pos 0;
      ccifs_timer_id = pos 0;
      actions =
          open_trace
          ∷ register_handler sigint
          ∷ register_handler sigterm
          ∷ register_handler sigsegv
          ∷ chdir chroot_dir
          ∷ [];
    } in
    if not (int_eq (fw.changes_dir chroot_dir) (pos 0))
    then (c, returned (pos 1))
    else open_services fw argv c
