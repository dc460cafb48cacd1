-- ===== src/Facade.antt =====
-- `cci_daemon_facade` of cci_daemon/src/core/cci_daemon.cpp and include/cci_daemon.h: the log, and how
-- the coordinator and the kernel are loaded. What the dynamic loader and the file system give is the
-- parameter `System`; a loaded kernel's functions work on the heap and the context of Kernel/Context.antt.
pub mod Mapping
pub mod PidFile
pub mod Exec
pub mod PidLog
pub mod Logged
pub mod Loop
mod Tests
mod ExecTests
use cci_daemon.Base.{
  ℕ, Bool, true, false, not, Option, none, some, List, [], ◌∷◌, ◌++◌, if◌then◌else◌, Text, codes,
  c_string, ℤ,
}
use cci_daemon.Kernel.{Symbol, missing, null, address}
use cci_daemon.Kernel.Context.{Heap, KernelContext}

-- How a call ends: it returns, it throws a `std::runtime_error`, or an object of another type, of which it is said
-- whether it is a `std::exception`, the process exits, or it uses a null pointer.
pub data Ending {ℓ} (A : Type ℓ) : Type ℓ where
  done : A → Ending A
  thrown : Text → Ending A
  thrown_other : Bool → Ending A
  exited : ℕ → Ending A
  crashed : Ending A

pub record KernelLib : Type 0 where
  pub make_kernel : Symbol (Heap → KernelContext → Heap × KernelContext)
  pub unmake_kernel : Symbol (Heap → KernelContext → Heap)

-- What a function of the library gives: a number, a `std::runtime_error` or another thrown object.
pub data LibResult : Type 0 where
  returns : ℤ → LibResult
  throws : Text → LibResult
  throws_other : Bool → LibResult

-- `bootstrap_default_coordinator`, by what it returns or throws.
pub record BootstrapLib : Type 0 where
  pub bootstrap_default_coordinator : Symbol LibResult

pub record System : Type 0 where
  pub log_accessible : Bool
  pub log_opens : Bool
  pub config_line : Option Text
  pub dlopen_kernel : Option KernelLib
  pub dlopen_bootstrap : Option BootstrapLib
  pub dlerror : Text

pub record Facade : Type 0 where
  pub lib_ref : Option KernelLib
  pub unmake_kernel : Option (Heap → KernelContext → Heap)
  pub context : KernelContext
  pub heap : Heap
  pub log_fp : Bool
  pub opened : Bool
  pub log : List Text

-- The constructor: `new kernel_context` leaves the pointers of the context as they are found in memory.
unfoldable pub cci_daemon_facade :
    Option KernelLib → Option ℕ → Option (Heap → KernelContext → Heap) → Heap → Facade
cci_daemon_facade found_lib found_ref found_unmake heap = record {
  lib_ref = found_lib;
  unmake_kernel = found_unmake;
  context = record { pm = []; kernel_ref = found_ref };
  heap = heap;
  log_fp = false;
  opened = false;
  log = [];
}

abbrev pub E {ℓ} : Type ℓ → Type ℓ
E A = Facade → Facade × Ending A

abbrev pub pure {ℓ} : {A : Type ℓ} → A → E A
pure a f = (f, done a)

abbrev pub throw {ℓ} : {A : Type ℓ} → Text → E A
throw what f = (f, thrown what)

abbrev pub throw_other {ℓ} : {A : Type ℓ} → Bool → E A
throw_other is_exception f = (f, thrown_other is_exception)

abbrev pub crash {ℓ} : {A : Type ℓ} → E A
crash f = (f, crashed)

abbrev pub exit {ℓ} : {A : Type ℓ} → ℕ → E A
exit status f = (f, exited status)

abbrev pub bind_ending {ℓ κ} :
    {A : Type ℓ} {B : Type κ} → Facade × Ending A → (A → E B) → Facade × Ending B
bind_ending (f, done a) k = k a f
bind_ending (f, thrown what) k = (f, thrown what)
bind_ending (f, thrown_other is_exception) k = (f, thrown_other is_exception)
bind_ending (f, exited status) k = (f, exited status)
bind_ending (f, crashed) k = (f, crashed)

infixl 5 ◌>>=◌ ◌>>◌
abbrev pub ◌>>=◌ {ℓ κ} : {A : Type ℓ} {B : Type κ} → E A → (A → E B) → E B
◌>>=◌ m k f = bind_ending (m f) k

abbrev pub ◌>>◌ {ℓ κ} : {A : Type ℓ} {B : Type κ} → E A → E B → E B
m >> k = m >>= λ _. k

-- The line in the log, less its time stamp; `msg.c_str()` ends at the first NUL.
unfoldable pub log_message : Text → E Bool
log_message msg f =
    (record f { log = if f.log_fp then f.log ++ c_string msg ∷ [] else f.log }, done f.log_fp)

-- A log that does not open is a null pointer, which `setbuf` gets.
unfoldable pub open_log : System → E Bool
open_log sys f =
    if not sys.log_accessible
    then (f, exited 1)
    else if not sys.log_opens
    then (record f { log_fp = false }, crashed)
    else (record f { log_fp = true }, done true)

-- `config_line` is what `fgets` reads less its last byte; `none` is a file that does not open.
unfoldable pub read_config_file : System → E Bool
read_config_file sys = elim sys.config_line [
  | none ↦ pure false
  | some str ↦ log_message (codes "read config file: " ++ str ++ 0 ∷ [])
]

-- The shape of `bootstrap_coordinator`'s first part.
abbrev pub coordinator_text : Text
coordinator_text =
    codes "cci_daemon.....bootstrapping default coordinator....william k. johnson 2017"

abbrev pub set_opened : Bool → E (Unit {0})
set_opened ok f = (record f { opened = ok }, done tt)

abbrev pub set_lib_ref : KernelLib → E (Unit {0})
set_lib_ref lib f = (record f { lib_ref = some lib }, done tt)

unfoldable pub open_if_closed : System → E (Unit {0})
open_if_closed sys f =
    if f.opened
    then (f, done tt)
    else (do
      ok ← open_log sys
      set_opened ok
      log_message coordinator_text
      read_config_file sys
      log_message coordinator_text
      pure tt)
        f

unfoldable pub load_lib {ℓ} : {A : Type ℓ} → Text → Text → Option A → E A
load_lib lib dlerror (some shared_object) = pure shared_object
load_lib lib dlerror none = throw (
    codes "could not load '"
    ++ codes "lib"
    ++ lib
    ++ codes ".so"
    ++ 0 ∷ codes "'"
    ++ codes "..."
    ++ dlerror)

-- A symbol that is missing makes `dlerror` speak up; one that is there may still be null.
unfoldable pub get_function_pointer {ℓ} : {A : Type ℓ} → Symbol A → E (Option A)
get_function_pointer missing = throw (codes "could not find exported function")
get_function_pointer null = pure none
get_function_pointer (address a) = pure (some a)

abbrev pub clear_pm : E (Unit {0})
clear_pm f = let context = record f.context { pm = [] } in (record f { context = context }, done tt)

-- `context()->make_kernel( context() )`.
abbrev pub call_make : (Heap → KernelContext → Heap × KernelContext) → E (Unit {0})
call_make make f =
    let after = make f.heap f.context in (record f { heap = after.0; context = after.1 }, done tt)

unfoldable pub make_kernel_at : Option (Heap → KernelContext → Heap × KernelContext) → E (Unit {0})
make_kernel_at none = throw (codes "...could not retrieve function addres=>:make_kernel...")
make_kernel_at (some make) = call_make make

abbrev pub check_ref : Option ℕ → E (Unit {0})
check_ref none = throw (codes "...kernel object instantiation failed...")
check_ref (some r) = pure tt

unfoldable pub check_kernel_ref : E (Unit {0})
check_kernel_ref f = check_ref f.context.kernel_ref f

-- The pointer is stored in the context, and then `k_` looks at it.
unfoldable pub keep_unmake : Option (Heap → KernelContext → Heap) → E (Unit {0})
keep_unmake none f = (
  record f { unmake_kernel = none },
  thrown (codes ".....could not retrieve function addres=>..."),
)
keep_unmake (some u) f = (record f { unmake_kernel = some u }, done tt)

unfoldable pub map_lib : KernelLib → E (Unit {0})
map_lib lib = do
  clear_pm
  make ← get_function_pointer lib.make_kernel
  make_kernel_at make
  check_kernel_ref
  clear_pm
  unmake ← get_function_pointer lib.unmake_kernel
  keep_unmake unmake
  log_message (codes "...mapped_kernel....")
  pure tt

abbrev pub map_ref : Option KernelLib → E (Unit {0})
map_ref none = throw (codes "...kernel mapping failed...library reference invalid...")
map_ref (some lib) = map_lib lib

unfoldable pub map_kernel : E (Unit {0})
map_kernel f = map_ref f.lib_ref f

abbrev pub ends : LibResult → E (Unit {0})
ends (returns dw) = pure tt
ends (throws what) = throw what
ends (throws_other is_exception) = throw_other is_exception

unfoldable pub call_bootstrap : Option LibResult → E (Unit {0})
call_bootstrap none = do
  log_message (codes "could not retrieve bootstrap function addresss")
  pure tt
call_bootstrap (some run) = do log_message (codes "...bootstrapping cooordinator..."); ends run

-- The block under `try`.
unfoldable pub load_coordinator : System → E (Unit {0})
load_coordinator sys = do
  log_message (codes "...loading kernel")
  lib ← load_lib (codes "cci_daemon_kernel") sys.dlerror sys.dlopen_kernel
  set_lib_ref lib
  map_kernel
  bootstrap_lib ← load_lib (codes "cci_daemon_bootstrap") sys.dlerror sys.dlopen_bootstrap
  function_address ← get_function_pointer bootstrap_lib.bootstrap_default_coordinator
  call_bootstrap function_address

-- `catch( std::runtime_error& err )`; an object of another type goes on to the caller.
abbrev pub catch_error : Facade × Ending (Unit {0}) → Facade × Ending (Unit {0})
catch_error (f, thrown what) = (log_message what >> exit 1) f
catch_error (f, done u) = (f, done u)
catch_error (f, thrown_other is_exception) = (f, thrown_other is_exception)
catch_error (f, exited status) = (f, exited status)
catch_error (f, crashed) = (f, crashed)

unfoldable pub try_load : System → E (Unit {0})
try_load sys f = catch_error (load_coordinator sys f)

unfoldable pub bootstrap_coordinator : System → E (Unit {0})
bootstrap_coordinator sys = do open_if_closed sys; try_load sys

-- The destructor; the `catch` there is for what `unmake_kernel` throws.
unfoldable pub unmake : Facade → Facade × Ending (Unit {0})
unmake f = elim f.unmake_kernel [
  | none ↦ (f, crashed)
  | some u ↦
      (do log_message (codes "...kernel unloaded...."); pure tt)
        (record f { heap = u f.heap f.context })
]

unfoldable pub destruct : Facade → Facade × Ending (Unit {0})
destruct f = elim f.context.kernel_ref [ none ↦ (f, done tt) | some r ↦ unmake f ]
