-- ===== src/Kernel.antt =====
-- The kernel of cci_daemon/src/kernel/cci_daemon_kernel.cpp and include/cci_daemon_kernel.h, its plugins
-- (cci_daemon_plugin.cpp, cci_shared_lib.cpp, include/cci_daemon_generic.h) and the brokers of
-- include/cci_pub_and_sub.h. What `dlopen` and `dlsym` find is the parameter `Loader`. A plugin's functions
-- get the kernel; here they change its publish-subscribe server only.
pub mod Plugins
pub mod Brokers
pub mod Context
pub mod Directives
mod Tests
use cci_daemon.Base.{
  ℕ, Bool, true, false, not, Option, none, some, List, [], ◌∷◌, ◌++◌, if◌then◌else◌, length, Text,
  codes, Dictionary, find_key, insert_key, erase_key,
}

-- How a call ends: it returns, it throws `std::runtime_error`, or it calls a null pointer.
pub data Result {ℓ} (A : Type ℓ) : Type ℓ where
  ok : A → Result A
  thrown : Text → Result A
  crashed : Result A

-- What `dlsym` gives: an error by `dlerror`, a null address, or an address.
pub data Symbol {ℓ} (A : Type ℓ) : Type ℓ where
  missing null : Symbol A
  address : A → Symbol A

-- A broker that has been opened, by its moniker.
abbrev pub Broker : Type 0
Broker = Text

pub record Duplexer : Type 0 where
  pub can_open_broker : Text → Bool
  pub open_broker : Text → Result Broker

-- `publish_and_subscribe_server`, by its list.
abbrev pub Server : Type 0
Server = List Duplexer

-- The exported functions of a shared library.
pub record SharedLib : Type 0 where
  pub get_engine_version : Symbol ℕ
  pub register_plugin : Symbol (Server → Server × Result (Unit {0}))
  pub clear_context : Symbol (Server → Server × Result (Unit {0}))

-- What `dlopen` of a path gives; `none` is the null handle.
abbrev pub Loader : Type 0
Loader = Text → Option SharedLib

pub record Plugin : Type 0 where
  pub str_filename : Text
  pub shared_lib : SharedLib

pub record Kernel : Type 0 where
  pub loaded_plugins : Dictionary Plugin
  pub pb_server : Server

pub cci_daemon_base_kernel : Kernel
cci_daemon_base_kernel = record { loaded_plugins = []; pb_server = [] }

-- `path_with_extension.c_str()`; the NUL of `std::ends` ends it.
abbrev pub path_with_extension : Text → Text
path_with_extension lib = codes "lib" ++ lib ++ codes ".so"

-- `cci_shared_lib::load`. The message has the NUL too.
unfoldable pub load : Loader → Text → Result SharedLib
load dlopen lib = elim (dlopen (path_with_extension lib)) [
  | none ↦ thrown (codes "could not load '" ++ path_with_extension lib ++ 0 ∷ codes "'")
  | some shared_object ↦ ok shared_object
]

abbrev pub is_missing {ℓ} : {A : Type ℓ} → Symbol A → Bool
is_missing missing = true
is_missing _ = false

-- `get_function_pointer` throws at a missing symbol, and the constructor turns that into its own error; a
-- null address is reported and kept.
unfoldable pub look_up : SharedLib → Result SharedLib
look_up lib =
    if is_missing lib.get_engine_version
    then thrown (codes "..could not load plugin...")
    else if is_missing lib.register_plugin
    then thrown (codes "..could not load plugin...")
    else if is_missing lib.clear_context
    then thrown (codes "..could not load plugin...")
    else ok lib

abbrev pub and_then {ℓ κ} : {A : Type ℓ} {B : Type κ} → Result A → (A → Result B) → Result B
and_then (ok a) f = f a
and_then (thrown what) f = thrown what
and_then crashed f = crashed

unfoldable pub cci_daemon_plugin : Loader → Text → Result Plugin
cci_daemon_plugin dlopen filename = and_then (load dlopen filename) (λ opened.
    and_then (look_up opened) (λ lib. ok (record { str_filename = filename; shared_lib = lib })))

-- The copy constructor leaves the file name out.
unfoldable pub copy_plugin : Plugin → Plugin
copy_plugin cdp = record cdp { str_filename = [] }

-- A call through a pointer of the plugin, with the kernel as its argument.
abbrev pub call_plugin :
    Symbol (Server → Server × Result (Unit {0})) → Kernel → Kernel × Result (Unit {0})
call_plugin (address f) k = (record k { pb_server = (f k.pb_server).0 }, (f k.pb_server).1)
call_plugin _ k = (k, crashed)

abbrev pub call_version : Symbol ℕ → Result (Unit {0})
call_version (address n) = ok tt
call_version _ = crashed

unfoldable pub registered : Kernel → Text → Bool
registered k config = elim (find_key config k.loaded_plugins) [ none ↦ false | some p ↦ true ]

abbrev pub plugin_count : Kernel → ℕ
plugin_count k = length k.loaded_plugins

-- `register_plugin( *this )` on the inserted plugin, and then its version for the log.
unfoldable pub register : Kernel → Plugin → Kernel × Result (Unit {0})
register k p =
    let (after, result) = call_plugin p.shared_lib.register_plugin k in
    (after, and_then result (λ u. call_version p.shared_lib.get_engine_version))

-- Behind the look-up in the map, on what the plugin's constructor gives.
abbrev pub insert_plugin : Kernel → Text → Result Plugin → Kernel × Result (Unit {0})
insert_plugin k config (ok cdp) =
    let inserted = copy_plugin (copy_plugin cdp) in
    register (record k { loaded_plugins = insert_key config inserted k.loaded_plugins }) inserted
insert_plugin k config (thrown what) = (k, thrown what)
insert_plugin k config crashed = (k, crashed)

unfoldable pub load_plugin : Loader → Kernel → Text → Kernel × Result (Unit {0})
load_plugin dlopen k config =
    if registered k config
    then (k, ok tt)
    else insert_plugin k config (cci_daemon_plugin dlopen config)

-- `erase` comes after `clear_context`, if that returns.
abbrev pub erase_plugin : Text → Kernel × Result (Unit {0}) → Kernel × Result (Unit {0})
erase_plugin config (k, ok u) =
    (record k { loaded_plugins = erase_key config k.loaded_plugins }, ok tt)
erase_plugin config (k, thrown what) = (k, thrown what)
erase_plugin config (k, crashed) = (k, crashed)

unfoldable pub unload_plugin : Kernel → Text → Kernel × Result (Unit {0})
unload_plugin k config = elim (find_key config k.loaded_plugins) [
  | none ↦ (k, ok tt)
  | some p ↦ erase_plugin config (call_plugin p.shared_lib.clear_context k)
]

-- The loop of `destroy_contexts`, over the plugins in the order of the map.
unfoldable pub clear_all :
    Dictionary Plugin → Kernel × Result (Unit {0}) → Kernel × Result (Unit {0})
clear_all [] done = done
clear_all ((key, p) ∷ ps) (k, ok u) = clear_all ps (call_plugin p.shared_lib.clear_context k)
clear_all (p ∷ ps) (k, thrown what) = (k, thrown what)
clear_all (p ∷ ps) (k, crashed) = (k, crashed)

unfoldable pub destroy_contexts : Kernel → Kernel × Result (Unit {0})
destroy_contexts k = clear_all k.loaded_plugins (k, ok tt)
