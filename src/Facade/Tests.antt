-- ===== src/Facade/Tests.antt =====
-- A facade on a small system.
use cci_daemon.Base.{true, false, none, some, [], codes, pos}
use cci_daemon.Kernel.{address}
use cci_daemon.Kernel.Context.{Heap, KernelContext}
use cci_daemon.Facade.{System, Facade, returns}
use cci_daemon.Facade.Mapping.{kernel_lib}

abbrev heap : Heap
heap = record { instance_ptr = none; fresh = 1; live = [] }

abbrev context : KernelContext
context = record { pm = []; kernel_ref = none }

abbrev facade : Facade
facade = record {
  lib_ref = none;
  unmake_kernel = none;
  context = context;
  heap = heap;
  log_fp = false;
  opened = false;
  log = [];
}

abbrev system : System
system = record {
  log_accessible = true;
  log_opens = true;
  config_line = some (codes "conf");
  dlopen_kernel = some kernel_lib;
  dlopen_bootstrap = some (record { bootstrap_default_coordinator = address (returns (pos 0)) });
  dlerror = [];
}
