-- ===== src/Service/Laws.antt =====
-- When a service is configured, and which entry points the python bootstrap takes.
use cci_daemon.Base.{
  ℕ, ◌+◌, ◌≡◌, ◌≢◌, ◌⊎◌, ◌<◌, inl, inr, refl, sym, ap, ◌∙◌, Bool, true, false, not, ◌&&◌, none,
  some, List, ◌∷◌, ◌++◌, arith, length, length-append, if◌then◌else◌, Text, codes, Lacks, find,
  find-find_char, find_char-Lacks, find_char-append, first_char, drop_past, take_all, le-npos, npos,
  size_mod, substr, ℤ, pos, minus_one, int_eq, int_eq-true, Bool-cases, Option-cases,
}
use cci_daemon.Handler.Protocol.{text_eq}
use cci_daemon.Handler.Protocol.Perform.{text_eq-true}
use cci_daemon.Main.Options.{text_eq_refl}
use cci_daemon.Service.{
  Found, Configuration, Dispatcher, ha_proc_ace_acceptor, proc_acceptor, read_options, init,
  init_from, start_listening, open_acceptor, u_short, conf_path, section_name,
}
use cci_daemon.Handler.Lifecycle.{is_thread_pool}
use cci_daemon.Service.Manager.{
  ha_auth_mgr_acceptor, manager_conf_path, manager_section, manager_init, manager_init_from,
}
use cci_daemon.Service.Python.{validate_entry_point}

abbrev pub IsPython : Text → Type 0
IsPython ext = (ext ≡ codes "pyo") ⊎ (ext ≡ codes "py")

-- What becomes of an entry point, by its name and whether it opens.
pub data Validates (opens : Text → Bool) (entry : Text) : ℤ → Type 0 where
  no_type : Lacks b'.' entry → Validates opens entry minus_one
  other_type :
      (stem ext : Text)
      → entry ≡ stem ++ b'.' ∷ ext
      → Lacks b'.' stem
      → ¬ IsPython ext
      → Validates opens entry minus_one
  python :
      (stem ext : Text)
      → entry ≡ stem ++ b'.' ∷ ext
      → Lacks b'.' stem
      → IsPython ext
      → Validates opens entry (if opens entry then pos 1 else pos 0)

module _ (opens : Text → Bool) (stem ext entry : Text) (e : entry ≡ stem ++ b'.' ∷ ext)
    (l : Lacks b'.' stem) where
  not-IsPython :
      text_eq ext (codes "pyo") ≡ false → text_eq ext (codes "py") ≡ false → ¬ IsPython ext
  not-IsPython o y (inl q) =
      let p : text_eq ext (codes "pyo") ≡ true = ap (text_eq ext) (sym q) ∙ text_eq_refl ext in
      cc (o, p)
  not-IsPython o y (inr q) =
      let p : text_eq ext (codes "py") ≡ true = ap (text_eq ext) (sym q) ∙ text_eq_refl ext in
      cc (y, p)

  by_type : Validates opens entry (
      if not (text_eq ext (codes "pyo")) && not (text_eq ext (codes "py"))
      then minus_one
      else (if opens entry then pos 1 else pos 0))
  by_type = elim (Bool-cases (text_eq ext (codes "pyo"))) [
    | inl o ↦ rw o (python stem ext e l (inl (text_eq-true ext _ o)))
    | inr o ↦ rw o (elim (Bool-cases (text_eq ext (codes "py"))) [
      | inl y ↦ rw y (python stem ext e l (inr (text_eq-true ext _ y)))
      | inr y ↦ rw y (other_type stem ext e l (not-IsPython o y))
    ])
  ]

  found_dot : find (codes ".") entry ≡ some (length stem)
  found_dot = rw e (find-find_char b'.' (stem ++ b'.' ∷ ext) ∙ find_char-append b'.' stem ext l)

  type_of : length entry < size_mod → substr entry (length stem + 1) npos ≡ ext
  type_of w = rw e (
      rw (drop_past stem ext b'.') (
        take_all npos ext
          (le-npos (length ext) (omega (arith, ap length e, length-append stem (b'.' ∷ ext))))))

-- `validate_entry_point` gives 1 or 0, whether or not the file opens, for exactly the names in which "py" or "pyo"
-- follows the first dot, and -1 for all others, also where another dot comes before the type, as in a relative
-- path. A file that is missing is not refused.
pub validate_entry_point-Validates :
    (opens : Text → Bool) (entry : Text)
    → length entry < size_mod
    → Validates opens entry (validate_entry_point opens entry)
unfolding validate_entry_point
validate_entry_point-Validates opens entry w = elim (first_char b'.' entry) [
  | inl l ↦
      rw (validate_entry_point, find-find_char b'.' entry, find_char-Lacks b'.' entry l) (no_type l)
  | inr (stem, ext, e, l) ↦
      rw
        (
          validate_entry_point,
          found_dot opens stem ext entry e l,
          type_of opens stem ext entry e l w,
        )
        (by_type opens stem ext entry e l)
]

-- Why `init` of a service may fail: each step of it that is reached can.
abbrev pub Port : Text → Text → Configuration → List Found → Text → ℕ → Type 0
Port path section c options file port =
    (read_options path options ≡ some file)
    × (c.import_config file ≡ true)
    × (c.open_section file section ≡ true)
    × (c.integer file section (codes "listen_port") ≡ some port)

pub data Fails (path section : Text) (c : Configuration) (opened : ℕ → ℤ) (long_option : Bool)
    (options : List Found) : Type 0 where
  no_long_option : long_option ≡ false → Fails path section c opened long_option options
  unknown_option :
      read_options path options ≡ none → Fails path section c opened long_option options
  no_file :
      (file : Text)
      → read_options path options ≡ some file
      → c.import_config file ≡ false
      → Fails path section c opened long_option options
  no_section :
      (file : Text)
      → read_options path options ≡ some file
      → c.open_section file section ≡ false
      → Fails path section c opened long_option options
  no_port :
      (file : Text)
      → read_options path options ≡ some file
      → c.integer file section (codes "listen_port") ≡ none
      → Fails path section c opened long_option options
  not_opened :
      (file : Text) (port : ℕ)
      → Port path section c options file port
      → opened (u_short port) ≡ minus_one
      → Fails path section c opened long_option options

-- How `init` of a service ends, whose file is at `path` and whose section there is `section`: it listens on what a
-- `u_short` keeps of the port of the file that the options leave, or a step of it fails, it returns -1 and listens as
-- before.
pub data Configures (path section : Text) (c : Configuration) (opened : ℕ → ℤ) (long_option : Bool)
    (options : List Found) (d : Dispatcher) : Dispatcher × ℤ → Type 0 where
  listens :
      (file : Text) (port : ℕ) (a : Dispatcher)
      → long_option ≡ true
      → Port path section c options file port
      → opened (u_short port) ≢ minus_one
      → a.instance_data.port ≡ port
      → a.acceptor.listening ≡ some (u_short port)
      → a.acceptor.the_pool ≡ d.acceptor.the_pool
      → Configures path section c opened long_option options d (a, pos 0)
  refused :
      (a : Dispatcher)
      → Fails path section c opened long_option options
      → a.acceptor.listening ≡ d.acceptor.listening
      → a.acceptor.the_pool ≡ d.acceptor.the_pool
      → Configures path section c opened long_option options d (a, minus_one)

-- The shape that both services share, over a service whose acceptor has no pool of its own.
abbrev listen_from : Text → Configuration → (ℕ → ℤ) → Text → Dispatcher → Dispatcher × ℤ
listen_from section c opened file d =
    if not (c.import_config file)
    then (d, minus_one)
    else if not (c.open_section file section)
    then (d, minus_one)
    else elim (c.integer file section (codes "listen_port")) [
      | none ↦ (d, minus_one)
      | some port ↦ start_listening opened port d
    ]

module _ (path section : Text) (c : Configuration) (opened : ℕ → ℤ) (options : List Found)
    (d : Dispatcher) (apart : is_thread_pool d.acceptor.concurrency ≡ false) where
  start-Configures :
      (file : Text) (port : ℕ)
      → Port path section c options file port
      → Configures path section c opened true options d (start_listening opened port d)
  unfolding start_listening open_acceptor
  start-Configures file port g = elim (Bool-cases (int_eq (opened (u_short port)) minus_one)) [
    | inl e ↦
        rw (apart, e)
          (refused _ (not_opened file port g (int_eq-true (opened (u_short port)) minus_one e)) refl
            refl)
    | inr e ↦
        rw (apart, e)
          (listens file port _ refl g
            (λ q.
              let p : int_eq (opened (u_short port)) minus_one ≡ true =
                ap (λ (r : ℤ). int_eq r minus_one) q in
              cc (e, p))
            refl refl refl)
  ]

  listen_from-Configures :
      (file : Text)
      → read_options path options ≡ some file
      → Configures path section c opened true options d (listen_from section c opened file d)
  listen_from-Configures file o = elim (Bool-cases (c.import_config file)) [
    | inr i ↦ simp i (refused _ (no_file file o i) refl refl)
    | inl i ↦ simp i (elim (Bool-cases (c.open_section file section)) [
      | inr s ↦ simp s (refused _ (no_section file o s) refl refl)
      | inl s ↦ simp s (elim (Option-cases (c.integer file section (codes "listen_port"))) [
        | inl g ↦ simp g (refused _ (no_port file o g) refl refl)
        | inr (port, g) ↦ simp g (start-Configures file port (o, i, s, g))
      ])
    ])
  ]

dispatch-Configures :
    (c : Configuration) (opened : ℕ → ℤ) (long_option : Bool) (options : List Found)
    → Configures conf_path section_name c opened long_option options ha_proc_ace_acceptor
        (init c opened long_option options ha_proc_ace_acceptor)
unfolding init init_from ha_proc_ace_acceptor proc_acceptor
dispatch-Configures c opened false options = refused _ (no_long_option refl) refl refl
dispatch-Configures c opened true options = elim (Option-cases (read_options conf_path options)) [
  | inl o ↦ rw o (refused _ (unknown_option o) refl refl)
  | inr (file, o) ↦ rw o (
      listen_from-Configures conf_path section_name c opened options ha_proc_ace_acceptor refl file
        o)
]

manager-Configures :
    (c : Configuration) (opened : ℕ → ℤ) (long_option : Bool) (options : List Found)
    → Configures manager_conf_path manager_section c opened long_option options ha_auth_mgr_acceptor
        (manager_init c opened long_option options ha_auth_mgr_acceptor)
unfolding manager_init manager_init_from ha_auth_mgr_acceptor proc_acceptor
manager-Configures c opened false options = refused _ (no_long_option refl) refl refl
manager-Configures c opened true options =
    elim (Option-cases (read_options manager_conf_path options)) [
      | inl o ↦ rw o (refused _ (unknown_option o) refl refl)
      | inr (file, o) ↦ rw o (
          listen_from-Configures manager_conf_path manager_section c opened options
            ha_auth_mgr_acceptor refl file o)
    ]

-- A dispatch service and an authentication manager that have just been made each either return 0 from `init` and
-- listen on the last 16 bits of the port that the file has, in the service's own section, which the options leave,
-- with no thread of the pool started, since the acceptor is made for a thread per connection; or return -1 and do not
-- listen, because the long option is not taken, an option is unknown, the file, its section or the port cannot be
-- read, or that port cannot be opened.
pub init-Configures :
    (c : Configuration) (opened : ℕ → ℤ) (long_option : Bool) (options : List Found)
    → Configures conf_path section_name c opened long_option options ha_proc_ace_acceptor
        (init c opened long_option options ha_proc_ace_acceptor)
      × Configures manager_conf_path manager_section c opened long_option options
          ha_auth_mgr_acceptor
          (manager_init c opened long_option options ha_auth_mgr_acceptor)
init-Configures c opened long_option options = (
  dispatch-Configures c opened long_option options,
  manager-Configures c opened long_option options,
)
