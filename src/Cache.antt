-- ===== src/Cache.antt =====
-- The notification thread of the configuration cache file system, of cci_daemon/src/ccifs/HA_ccifs_dynamic.cpp.
-- The kernel's inotify is a parameter: whether it starts, and what `read` gives. It writes whole events, each a
-- descriptor, a mask, a cookie and the length of a name, in words of four bytes, and the name.
pub mod Walk
mod Tests
use cci_daemon.Base.{
  ℕ, zero, suc, ◌+◌, ◌-◌, ◌*◌, ◌/◌, ◌%◌, ◌^◌, Bool, true, false, not, Option, none, some, List, [],
  ◌∷◌, ◌++◌, ltb, ◌==◌, if◌then◌else◌, Text, codes, length, drop, c_string, is_empty, ℤ, pos,
  minus_one,
}
use cci_daemon.Daemonize.{has_flag}
use cci_daemon.Daemonize.PidFile.{digits}
use cci_daemon.Service.{Found, read_options, Configuration}

abbrev pub in_create : ℕ
in_create = 256

-- A word of four bytes, the lowest first, and what follows it.
unfoldable pub read_word : Text → ℕ × Text
read_word (a ∷ b ∷ c ∷ d ∷ rest) = (a + 256 * b + 65536 * c + 16777216 * d, rest)
read_word _ = (0, [])

-- `struct inotify_event`; the name has `len` bytes.
pub record InotifyEvent : Type 0 where
  pub wd : ℕ
  pub mask : ℕ
  pub cookie : ℕ
  pub len : ℕ
  pub name : Text

unfoldable pub event_at : Text → InotifyEvent
event_at p =
    let (wd, q) = read_word p in
    let (mask, r) = read_word q in
    let (cookie, s) = read_word r in
    let (len, name) = read_word s in
    record { wd = wd; mask = mask; cookie = cookie; len = len; name = name }

-- An `int` in decimal, from its word.
abbrev pub print_int : ℕ → Text
print_int n = if ltb n (2 ^ 31) then digits 20 n else b'-' ∷ digits 20 (2 ^ 32 - n)

-- What is logged of an event.
unfoldable pub display_inotify_event : InotifyEvent → List Text
display_inotify_event ine =
    if has_flag ine.mask in_create
    then (codes "<created> decriptor: "
        ++ print_int ine.wd
        ++ codes " cookie:"
        ++ digits 20 ine.cookie
        ++ codes " "
        ++ (if ltb 0 ine.len then codes "name=" ++ c_string ine.name else []))
      ∷ []
    else []

abbrev pub event_size : ℕ
event_size = 16

-- The walk over what was read, with fuel; each round takes at least the 16 bytes of an event.
unfoldable pub walk : ℕ → Text → List Text
walk zero p = []
walk (suc fuel) [] = []
walk (suc fuel) (b ∷ bs) =
    let event = event_at (b ∷ bs) in
    display_inotify_event event ++ walk fuel (drop (event_size + event.len) (b ∷ bs))

-- The results of `read` while the service runs; `none` is -1. What is logged, and the result.
unfoldable pub read_events : List (Option Text) → List Text × ℤ
read_events [] = ([], pos 0)
read_events (none ∷ reads) = ([], minus_one)
read_events (some buf ∷ reads) =
    let (lines, result) = read_events reads in
    if is_empty buf then ([], minus_one) else (walk (length buf) buf ++ lines, result)

unfoldable pub ccifs_inotify : Bool → (Text → Bool) → Text → List (Option Text) → List Text × ℤ
ccifs_inotify inits watches str_tmpfs reads =
    if not inits
    then ([], minus_one)
    else if not (watches str_tmpfs)
    then ([], minus_one)
    else read_events reads

abbrev pub ccifs_conf_path : Text
ccifs_conf_path = codes "/etc/chromatic-universe/ha_ccifs.ini"

abbrev pub ccifs_section : Text
ccifs_section = codes "HA_ccifs"

-- `init` looks at the values and keeps none of them; the thread is spawned then, and the result is 0.
unfoldable pub ccifs_init_from : Configuration → Text → ℤ
ccifs_init_from c config_file =
    if not (c.import_config config_file)
    then minus_one
    else if not (c.open_section config_file ccifs_section)
    then minus_one
    else elim (c.integer config_file ccifs_section (codes "fifo")) [
      | none ↦ minus_one
      | some dispatcher_port ↦
          elim (c.string config_file ccifs_section (codes "ccifs_tmpfs_mount")) [
            | none ↦ minus_one
            | some ccifs ↦ pos 0
          ]
    ]

unfoldable pub ccifs_init : Configuration → Bool → List Found → ℤ
ccifs_init c long_option options =
    if not long_option then minus_one else elim (read_options ccifs_conf_path options) [
      | none ↦ minus_one
      | some config_file ↦ ccifs_init_from c config_file
    ]

-- What the thread does: an instance that is null has nothing to watch. The lines that are logged.
unfoldable pub ccifs_func : Option Text → Bool → (Text → Bool) → List (Option Text) → List Text
ccifs_func none inits watches reads = []
ccifs_func (some str_tmpfs) inits watches reads = (ccifs_inotify inits watches str_tmpfs reads).0

-- `fini` on what `running` says, which ends the reads; the thread's cancelling is not looked at.
unfoldable pub ccifs_fini : Bool → Bool × ℤ
ccifs_fini running = (if running then false else running, pos 0)
