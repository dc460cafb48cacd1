-- ===== src/Service/Python.antt =====
-- The python bootstrap, of cci_daemon/src/tornado/bootstrap/HA_python_bootstrap.cpp. The interpreter is a
-- parameter, as are the files that can be opened.
use cci_daemon.Base.{
  ℕ, ◌+◌, Bool, not, ◌&&◌, none, some, List, ◌++◌, if◌then◌else◌, Text, codes, find, substr, npos,
  ℤ, pos, minus_one, int_eq,
}
use cci_daemon.Handler.Protocol.{text_eq}
use cci_daemon.Service.{Found, read_options, Configuration}

pub record Bootstrap : Type 0 where
  pub port : ℕ
  pub prv : Text
  pub home : Text

abbrev pub python_conf_path : Text
python_conf_path = codes "/etc/chromatic-universe/ha_python_bootstrap.ini"

abbrev pub python_section : Text
python_section = codes "HA_python_bootstrap"

unfoldable pub python_init_from : Configuration → Text → Bootstrap → Bootstrap × ℤ
python_init_from c config_file b =
    if not (c.import_config config_file)
    then (b, minus_one)
    else if not (c.open_section config_file python_section)
    then (b, minus_one)
    else elim (c.integer config_file python_section (codes "listen_port")) [
      | none ↦ (b, minus_one)
      | some dispatcher_port ↦ elim (c.string config_file python_section (codes "cci_private")) [
        | none ↦ (record b { port = dispatcher_port }, minus_one)
        | some cci_private ↦
            (record b { port = dispatcher_port; prv = cci_private; home = cci_private }, pos 0)
      ]
    ]

-- The thread is spawned then, and the result is 0 whether or not it is.
unfoldable pub python_init : Configuration → Bool → List Found → Bootstrap → Bootstrap × ℤ
python_init c long_option options b =
    if not long_option then (b, minus_one) else elim (read_options python_conf_path options) [
      | none ↦ (b, minus_one)
      | some config_file ↦ python_init_from c config_file b
    ]

-- The value of PYTHONPATH.
unfoldable pub set_py_env : Bootstrap → Text
set_py_env b =
    b.prv
    ++ codes "/lib/python3.6/lib-dynload/:"
    ++ b.prv
    ++ codes "/lib/python3.6/:"
    ++ b.prv
    ++ codes "/lib/python3.6/site-packages/:"
    ++ b.prv
    ++ codes "/bin/:"
    ++ b.home

-- Whether a file opens, as 1 or 0.
abbrev pub file_exists : (Text → Bool) → Text → ℤ
file_exists opens filename = if opens filename then pos 1 else pos 0

unfoldable pub validate_entry_point : (Text → Bool) → Text → ℤ
validate_entry_point opens entry = elim (find (codes ".") entry) [
  | none ↦ minus_one
  | some idx ↦
      let str = substr entry (idx + 1) npos in
      if not (text_eq str (codes "pyo")) && not (text_eq str (codes "py"))
      then minus_one
      else file_exists opens entry
]

-- The interpreter: `Py_Initialize` may throw, the result of a line, that of a file, and whether it has left an
-- error.
pub record Interpreter : Type 0 where
  pub throws : Bool
  pub simple_string : Text → ℤ
  pub simple_file : Text → ℤ
  pub error : Text → Bool

unfoldable pub open_entry_point : Interpreter → (Text → Bool) → Text → ℤ
open_entry_point py opens entry =
    if not (opens entry) then minus_one else if py.error entry then pos 1 else py.simple_file entry

-- How the thread ends.
pub data Booted : Type 0 where
  no_home no_python no_modules not_valid : Booted
  ran : ℤ → Booted

abbrev pub cci_trinity_app_moniker : Text
cci_trinity_app_moniker = codes "cci_trinity.py"

unfoldable pub python_bootstrap_func : Interpreter → (Text → ℤ) → (Text → Bool) → Bootstrap → Booted
python_bootstrap_func py chdir opens boot =
    if int_eq (chdir boot.home) minus_one
    then no_home
    else if py.throws
    then no_python
    else if int_eq (py.simple_string (codes "import sys, logging , os , posix\n")) minus_one
    then no_modules
    else if int_eq (validate_entry_point opens cci_trinity_app_moniker) minus_one
    then not_valid
    else ran (open_entry_point py opens cci_trinity_app_moniker)

-- `fini` cancels the thread and does not look at how that went.
unfoldable pub python_fini : Bootstrap → Bootstrap × ℤ
python_fini b = (b, pos 0)
