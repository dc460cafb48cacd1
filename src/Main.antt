-- ===== src/Main.antt =====
-- The main programs cci_daemon/src/core/cci_daemon_main.cpp and cci_daemon/src/dispatcher/cci_daemon_main.cpp,
-- which are the same: options, the daemon process, and what becomes of the facade.
pub mod Options
pub mod Whole
mod Tests
use cci_daemon.Base.{
  ℕ, Bool, true, false, not, ◌&&◌, Option, none, some, List, [], ◌∷◌, if◌then◌else◌, Text, codes, ℤ,
  minus_one, int_eq,
}
use cci_daemon.Handler.Protocol.{text_eq}
use cci_daemon.Facade.{Ending, done, thrown, thrown_other, exited, crashed}

-- `std::find( begin , end , option )`, as what stands from there on.
unfoldable pub find_option : List Text → Text → List Text
find_option [] option = []
find_option (arg ∷ args) option =
    let rest = find_option args option in if text_eq arg option then arg ∷ args else rest

abbrev pub second : List Text → Option Text
second (arg ∷ next ∷ args) = some next
second _ = none

-- The argument behind the option; `none` is the null pointer.
unfoldable pub get_cmd_option : List Text → Text → Option Text
get_cmd_option args option = second (find_option args option)

abbrev pub is_end : List Text → Bool
is_end [] = true
is_end (arg ∷ args) = false

unfoldable pub cmd_option_exists : List Text → Text → Bool
cmd_option_exists args option = not (is_end (find_option args option))

pub data ServiceProc : Type 0 where
  default_service default_coordinator custom_coordinator : ServiceProc

-- How often the facade is deleted, and how the process ends; `none` is a crash.
pub record Finish : Type 0 where
  pub deleted : ℕ
  pub status : Option ℕ

-- What follows the block under `try`: the handler, which takes a `std::exception`, deletes the facade and so does the code behind it, and the
-- second `delete` of an object crashes.
unfoldable pub after_try : Ending (Unit {0}) → Finish
after_try (done u) = record { deleted = 1; status = some 0 }
after_try (thrown what) = record { deleted = 2; status = none }
after_try (thrown_other is_exception) =
    if is_exception
    then record { deleted = 2; status = none }
    else record { deleted = 0; status = none }
after_try (exited status) = record { deleted = 0; status = some status }
after_try crashed = record { deleted = 0; status = none }

abbrev pub chosen : List Text → ServiceProc
chosen args = if cmd_option_exists args (codes "-a") then default_coordinator else default_service

-- `switch( df->proc() )`, on how `bootstrap_coordinator` and `daemon_default_exec` end.
unfoldable pub run_proc : ServiceProc → Ending (Unit {0}) → Ending (Unit {0}) → Ending (Unit {0})
run_proc default_coordinator coordinator exec = coordinator
run_proc _ coordinator exec = exec

-- `throw;` without an exception ends in `chromatic_terminate`, here without a core.
unfoldable pub run : List Text → ℤ → Ending (Unit {0}) → Ending (Unit {0}) → Ending (Unit {0})
run args daemonized coordinator exec =
    let daemonize = not (cmd_option_exists args (codes "-t")) in
    if daemonize && int_eq daemonized minus_one
    then exited 1
    else run_proc (chosen args) coordinator exec

-- `daemonized` is what `daemonize` gives.
unfoldable pub main : List Text → ℤ → Ending (Unit {0}) → Ending (Unit {0}) → Finish
main args daemonized coordinator exec = after_try (run args daemonized coordinator exec)
