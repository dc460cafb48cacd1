-- ===== src/Service/Info.antt =====
-- What the services say of themselves: `info` of the dispatch service
-- (cci_daemon/src/coordinator/HA_dispatcher_protocol_dynamic.cpp), the authentication manager
-- (cci_daemon/src/manager/HA_manager_protocol_dynamic.cpp), ccifs (cci_daemon/src/ccifs/HA_ccifs_dynamic.cpp) and the
-- python bootstrap (cci_daemon/src/tornado/bootstrap/HA_python_bootstrap.cpp).
pub mod Buffer
use cci_daemon.Base.{
  ℕ, Option, none, some, List, [], ◌∷◌, ◌++◌, ltb, if◌then◌else◌, Text, codes, length, take, drop,
  replicate, find_char,
}
use cci_daemon.Daemonize.PidFile.{digits}
use cci_daemon.Service.{Dispatcher}
use cci_daemon.Service.Python.{Bootstrap}

-- `strncpy` into a buffer, and `strlen` of it; `none` is a buffer that is left.
unfoldable pub strncpy : Text → Text → ℕ → Option Text
strncpy dest src n =
    if ltb (length dest) n then none else some (take n (src ++ replicate n 0) ++ drop n dest)

unfoldable pub strlen : Text → Option ℕ
strlen s = find_char 0 s

abbrev pub with_length : Text → Option ℕ → Option (Text × ℕ)
with_length s none = none
with_length s (some n) = some (s, n)

abbrev pub measured : Option Text → Option (Text × ℕ)
measured none = none
measured (some s) = with_length s (strlen s)

-- The objects of the framework that have an `info`.
pub data ServiceObject : Type 0 where
  dispatcher manager : Dispatcher → ServiceObject
  bootstrap : Bootstrap → ServiceObject
  ccifs : ServiceObject

abbrev pub port_text : Text → ℕ → Text
port_text name port = name ++ (codes " listening on port " ++ (digits 20 port ++ codes "\n"))

-- What `sprintf` leaves in `buf`.
unfoldable pub info_text : ServiceObject → Text
info_text (dispatcher d) = port_text (codes "HA_proc_ace_accepotr") d.instance_data.port
info_text (manager d) = port_text (codes "HA_auth_mgr_acceptor") d.instance_data.port
info_text (bootstrap b) = port_text (codes "HA_python_bootstrap") b.port
info_text ccifs = codes "HA_ccifs initialized"

-- `*str` is none where it is the null pointer; the result is the text there and its length.
unfoldable pub info : Option Text → ℕ → ServiceObject → Option (Text × ℕ)
info none len service = measured (some (info_text service ++ 0 ∷ []))
info (some str) len service = measured (strncpy str (info_text service) len)

-- `info` of each of the other services.
abbrev pub manager_info : Option Text → ℕ → Dispatcher → Option (Text × ℕ)
manager_info str len d = info str len (manager d)

abbrev pub ccifs_info : Option Text → ℕ → Option (Text × ℕ)
ccifs_info str len = info str len ccifs

abbrev pub bootstrap_info : Option Text → ℕ → Bootstrap → Option (Text × ℕ)
bootstrap_info str len b = info str len (bootstrap b)
