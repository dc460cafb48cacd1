-- ===== src/Service/Manager.antt =====
-- The configuration of the authentication manager's service, of
-- cci_daemon/src/manager/HA_manager_protocol_dynamic.cpp, and its acceptor, of
-- cci_daemon/src/manager/auth_mgr_acceptor.cpp. The service has the same two fields as the dispatch service, so
-- its state is a `Dispatcher`, and what it does once the port is known is `start_listening`.
use cci_daemon.Base.{ℕ, Bool, not, none, some, List, if◌then◌else◌, Text, codes, ℤ, minus_one}
use cci_daemon.Handler.Lifecycle.{Concurrency, thread_per_connection}
use cci_daemon.ThreadPool.{Pool}
use cci_daemon.Service.{
  Found, Configuration, ProtocolData, Acceptor, Dispatcher, open_acceptor, proc_acceptor,
  shared_acceptor, read_options, start_listening,
}

-- The acceptor is that of the dispatch service under other names.
abbrev pub auth_mgr_acceptor : Concurrency → Acceptor
auth_mgr_acceptor concurrency = proc_acceptor concurrency

abbrev pub shared_auth_mgr_acceptor : Pool → Acceptor
shared_auth_mgr_acceptor pool = shared_acceptor pool

abbrev pub open_auth_mgr_acceptor : (ℕ → ℤ) → ProtocolData → Acceptor → Acceptor × ℤ
open_auth_mgr_acceptor opened instance_data a = open_acceptor opened instance_data a

unfoldable pub ha_auth_mgr_acceptor : Dispatcher
ha_auth_mgr_acceptor = record {
  acceptor = auth_mgr_acceptor thread_per_connection;
  instance_data = record { port = 7082; thread_pool_size = 10 };
}

abbrev pub manager_conf_path : Text
manager_conf_path = codes "/etc/chromatic-universe/ha_mgr_ace_acceptor.ini"

abbrev pub manager_section : Text
manager_section = codes "HA_auth_mgr_acceptor"

unfoldable pub manager_init_from : Configuration → (ℕ → ℤ) → Text → Dispatcher → Dispatcher × ℤ
manager_init_from c opened config_file d =
    if not (c.import_config config_file)
    then (d, minus_one)
    else if not (c.open_section config_file manager_section)
    then (d, minus_one)
    else elim (c.integer config_file manager_section (codes "listen_port")) [
      | none ↦ (d, minus_one)
      | some dispatcher_port ↦ start_listening opened dispatcher_port d
    ]

unfoldable pub manager_init :
    Configuration → (ℕ → ℤ) → Bool → List Found → Dispatcher → Dispatcher × ℤ
manager_init c opened long_option options d =
    if not long_option then (d, minus_one) else elim (read_options manager_conf_path options) [
      | none ↦ (d, minus_one)
      | some config_file ↦ manager_init_from c opened config_file d
    ]
