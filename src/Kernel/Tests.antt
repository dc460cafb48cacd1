-- ===== src/Kernel/Tests.antt =====
-- A kernel with one small plugin.
use cci_daemon.Base.{◌≡◌, refl, true, none, some, [], ◌∷◌, ◌++◌, Text, codes, if◌then◌else◌, same}
use cci_daemon.Kernel.{
  Result, ok, thrown, address, Duplexer, Server, SharedLib, Loader, Plugin, cci_daemon_plugin, load,
  look_up, path_with_extension,
}
use cci_daemon.Kernel.Context.{Heap, KernelContext}

-- As the plugin for Kafka does: it opens every broker.
abbrev kafka : Duplexer
kafka = record { can_open_broker = λ c. true; open_broker = λ c. ok (codes "plugin:kafka") }

abbrev picky : Duplexer
picky = record {
  can_open_broker = λ c. same c (codes "amqp");
  open_broker = λ c. ok (codes "plugin:amqp");
}

abbrev clear : Server → Server × Result (Unit {0})
clear s = ([], ok tt)

abbrev lib : SharedLib
lib = record {
  get_engine_version = address 1;
  register_plugin = address (λ s. (s ++ kafka ∷ [], ok tt));
  clear_context = address clear;
}

abbrev name : Text
name = codes "ps_kafka"

abbrev dlopen : Loader
dlopen path = if same path (path_with_extension name) then some lib else none

abbrev plugin : Plugin
plugin = record { str_filename = name; shared_lib = lib }

not_made :
    cci_daemon_plugin dlopen (codes "x") ≡ thrown (codes "could not load 'libx.so" ++ 0 ∷ codes "'")
unfolding cci_daemon_plugin load look_up
not_made = refl

abbrev heap : Heap
heap = record { instance_ptr = none; fresh = 1; live = [] }

abbrev client : KernelContext
client = record { pm = []; kernel_ref = none }
