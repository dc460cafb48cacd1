-- ===== src/Service/Tests.antt =====
-- A dispatch service with a file of its own, and entry points.
use cci_daemon.Base.{
  ◌-◌, ◌++◌, ltb, if◌then◌else◌, length, replicate, none, npos, ◌≡◌, refl, arith, true, false, some,
  [], ◌∷◌, codes, pos, minus_one,
}
use cci_daemon.Service.{config, Configuration, ha_proc_ace_acceptor, init}
use cci_daemon.Handler.Lifecycle.{thread_pool}
use cci_daemon.ThreadPool.{Pool, running, sending, polling, stopped}
use cci_daemon.Service.{ProtocolData, Acceptor}
use cci_daemon.Service.{conf_path, section_name}
use cci_daemon.Service.Manager.{
  ha_auth_mgr_acceptor, manager_conf_path, manager_section, manager_init,
}
use cci_daemon.Service.Close.{Close}
use cci_daemon.Service.Info.{ServiceObject, dispatcher, info, info_text}
use cci_daemon.Service.Info.Buffer.{info_fits}
use cci_daemon.Service.Python.{
  validate_entry_point, open_entry_point, python_bootstrap_func, Interpreter, ran,
}
use cci_daemon.Service.Laws.{Configures, init-Configures, Validates, validate_entry_point-Validates}

abbrev settings : Configuration
settings = record {
  import_config = λ file. true;
  open_section = λ file section. true;
  integer = λ file section key. some 7080;
  string = λ file section key. some (codes "/cci/private");
}

init-Configures_example :
    Configures conf_path section_name settings
      (λ port. pos 0)
      true
      (config (codes "x.ini") ∷ [])
      ha_proc_ace_acceptor
      (init settings (λ port. pos 0) true (config (codes "x.ini") ∷ []) ha_proc_ace_acceptor)
    × Configures manager_conf_path manager_section settings
        (λ port. pos 0)
        true
        (config (codes "x.ini") ∷ [])
        ha_auth_mgr_acceptor
        (manager_init settings
          (λ port. pos 0)
          true
          (config (codes "x.ini") ∷ [])
          ha_auth_mgr_acceptor)
init-Configures_example =
    init-Configures settings (λ port. pos 0) true (config (codes "x.ini") ∷ [])

validate_entry_point-Validates_example :
    Validates
      (λ file. false)
      (codes "app.v2.py")
      (validate_entry_point (λ file. false) (codes "app.v2.py"))
validate_entry_point-Validates_example =
    validate_entry_point-Validates (λ file. false) (codes "app.v2.py") (omega arith)

-- A missing program passes the validation, and is noticed only when it is to be opened.
abbrev interpreter : Interpreter
interpreter = record {
  throws = false;
  simple_string = λ text. pos 0;
  simple_file = λ file. pos 0;
  error = λ file. false;
}

missing_program :
    python_bootstrap_func interpreter
      (λ dir. pos 0)
      (λ file. false)
      (record { port = 0; prv = []; home = codes "/cci" })
    ≡ ran minus_one
unfolding python_bootstrap_func validate_entry_point open_entry_point npos
missing_program = refl

-- A pool of one thread, which starts, is asked to end and does.
abbrev fresh : Pool
fresh = record {
  active_threads = 0;
  created = 1;
  waiting = 0;
  busy = [];
  queue = [];
  served = [];
  phase = running;
}

abbrev entered : Pool
entered = record fresh { created = 0; waiting = 1; active_threads = 1 }

abbrev asked : Pool
asked = record entered { phase = sending 1 }

abbrev told : Pool
told = record entered { phase = sending 0; queue = none ∷ [] }

abbrev gone : Pool
gone = record fresh { created = 0; phase = sending 0 }

abbrev polled : Pool
polled = record fresh { created = 0; phase = polling }

abbrev instance_data : ProtocolData
instance_data = record { port = 7080; thread_pool_size = 1 }

abbrev pool_acceptor : Acceptor
pool_acceptor = record {
  concurrency = thread_pool;
  is_private = true;
  the_pool = record polled { phase = stopped };
  data_port = some 7080;
  listening = none;
}

abbrev service : ServiceObject
service = dispatcher (record { acceptor = pool_acceptor; instance_data = instance_data })

info_fits_example : info (some (replicate 64 1)) 64 service ≡ (
    if ltb (length (info_text service)) 64
    then some (
      info_text service ++ replicate (64 - length (info_text service)) 0,
      length (info_text service),
    )
    else none)
info_fits_example = info_fits (replicate 64 1) service
