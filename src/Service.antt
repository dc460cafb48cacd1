-- ===== src/Service.antt =====
-- The services that the framework configures. ACE's option parser and its configuration are parameters: a list of
-- the options found, and what the configuration says. Here: the dispatch service, of
-- cci_daemon/src/coordinator/HA_dispatcher_protocol_dynamic.cpp, and its acceptor, of
-- cci_daemon/src/procs/proc_ace_acceptor.cpp.
pub mod Python
pub mod Manager
pub mod Close
pub mod Info
pub mod Laws
mod Tests
use cci_daemon.Base.{
  ℕ, zero, suc, ◌%◌, ◌^◌, Bool, true, false, not, ◌&&◌, Option, none, some, List, [], ◌∷◌,
  if◌then◌else◌, Text, codes, take, ℤ, pos, minus_one, int_eq,
}
use cci_daemon.Handler.Lifecycle.{Concurrency, thread_per_connection, thread_pool, is_thread_pool}
use cci_daemon.ThreadPool.{Pool, proc_thread_pool, start}

-- What the next call of `cmd_opts` gives, up to the end of the arguments.
pub data Found : Type 0 where
  config : Text → Found
  missing_argument parse_error : Found

abbrev pub maxpathlen : ℕ
maxpathlen = 4096

-- The loop over the options; the last `-f` wins, and `none` is the return of -1.
unfoldable pub read_options : Text → List Found → Option Text
read_options config_file [] = some config_file
read_options config_file (config opt_arg ∷ options) = read_options (take maxpathlen opt_arg) options
read_options config_file (missing_argument ∷ options) = none
read_options config_file (parse_error ∷ options) = none

-- ACE's configuration: whether a file is imported, has a section, and the values by file, section and key.
pub record Configuration : Type 0 where
  pub import_config : Text → Bool
  pub open_section : Text → Text → Bool
  pub integer : Text → Text → Text → Option ℕ
  pub string : Text → Text → Text → Option Text

pub record ProtocolData : Type 0 where
  pub port : ℕ
  pub thread_pool_size : ℕ

-- The port of its data is none until `open` sets them; `the_pool` is the private one where `is_private`.
pub record Acceptor : Type 0 where
  pub concurrency : Concurrency
  pub is_private : Bool
  pub the_pool : Pool
  pub data_port : Option ℕ
  pub listening : Option ℕ

unfoldable pub proc_acceptor : Concurrency → Acceptor
proc_acceptor concurrency = record {
  concurrency = concurrency;
  is_private = true;
  the_pool = proc_thread_pool;
  data_port = none;
  listening = none;
}

-- The acceptor over a pool that others use too.
unfoldable pub shared_acceptor : Pool → Acceptor
shared_acceptor pool = record {
  concurrency = thread_pool;
  is_private = false;
  the_pool = pool;
  data_port = none;
  listening = none;
}

-- What a `u_short` keeps of a port.
abbrev pub u_short : ℕ → ℕ
u_short n = n % 2 ^ 16

-- `opened` is what the inherited `open` gives for a port of the address, which is a `u_short`.
unfoldable pub open_acceptor : (ℕ → ℤ) → ProtocolData → Acceptor → Acceptor × ℤ
open_acceptor opened instance_data a =
    let pool =
      if is_thread_pool a.concurrency && a.is_private
      then start a.the_pool instance_data.thread_pool_size
      else a.the_pool in
    let listening =
      if int_eq (opened (u_short instance_data.port)) minus_one
      then a.listening
      else some (u_short instance_data.port) in
    (
      record a { the_pool = pool; data_port = some instance_data.port; listening = listening },
      opened (u_short instance_data.port),
    )

pub record Dispatcher : Type 0 where
  pub acceptor : Acceptor
  pub instance_data : ProtocolData

unfoldable pub ha_proc_ace_acceptor : Dispatcher
ha_proc_ace_acceptor = record {
  acceptor = proc_acceptor thread_per_connection;
  instance_data = record { port = 8000; thread_pool_size = 125 };
}

abbrev pub conf_path : Text
conf_path = codes "/etc/chromatic-universe/ha_proc_ace_acceptor.ini"

abbrev pub section_name : Text
section_name = codes "HA_proc_ace_acceptor"

-- From the port on.
unfoldable pub start_listening : (ℕ → ℤ) → ℕ → Dispatcher → Dispatcher × ℤ
start_listening opened dispatcher_port d =
    let instance_data = record d.instance_data { port = dispatcher_port } in
    let (acceptor, result) = open_acceptor opened instance_data d.acceptor in
    let after = record d { acceptor = acceptor; instance_data = instance_data } in
    if int_eq result minus_one then (after, minus_one) else (after, pos 0)

unfoldable pub init_from : Configuration → (ℕ → ℤ) → Text → Dispatcher → Dispatcher × ℤ
init_from c opened config_file d =
    if not (c.import_config config_file)
    then (d, minus_one)
    else if not (c.open_section config_file section_name)
    then (d, minus_one)
    else elim (c.integer config_file section_name (codes "listen_port")) [
      | none ↦ (d, minus_one)
      | some dispatcher_port ↦ start_listening opened dispatcher_port d
    ]

-- `long_option` is that the long form of `-f` is taken.
unfoldable pub init : Configuration → (ℕ → ℤ) → Bool → List Found → Dispatcher → Dispatcher × ℤ
init c opened long_option options d =
    if not long_option then (d, minus_one) else elim (read_options conf_path options) [
      | none ↦ (d, minus_one)
      | some config_file ↦ init_from c opened config_file d
    ]
