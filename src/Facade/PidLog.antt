-- ===== src/Facade/PidLog.antt =====
-- What the default daemon's log gets of the writing of the pid file.
use cci_daemon.Base.{
  ◌≡◌, inl, inr, refl, sym, ap, Bool, true, false, List, [], ◌∷◌, ◌++◌, ◌==◌, ◌||◌, not, length,
  pos, if◌then◌else◌, Text, codes, c_string, minus_one, int_eq, Bool-cases, append-nil,
}
use cci_daemon.Host.{Call, ftruncate, write_file, getpid, print, Env, Outcome, returned}
use cci_daemon.Daemonize.PidFile.{eagain, eacces}
use cci_daemon.Facade.{Facade, done, log_message, bind_ending}
use cci_daemon.Facade.PidFile.{
  write_pid, the_fd, lock_call, after_open, after_lock, after_cut, the_line, log_and_flag,
  log_and_lock, log_locked, log_and_cut, log_and_put,
}
use cci_daemon.Facade.Exec.{note_pid, after_pid, log_printed}
use cci_daemon.Facade.Logged.{Logged, logged, if_true, Logged-bind}

-- What is to be in the log, by the first step that fails on a system: none, the write of the line, the truncation,
-- the lock, or the file's opening.
module _ (pid_path : Text) (env : Env) where
  abbrev locked_text : Text
  locked_text =
      let e = env.errno (after_lock pid_path env []) in
      if e == eagain || e == eacces
      then codes "pid file is locked; probably daemon is already running"
      else codes "unable to lock pid file"

  abbrev no_file : Bool
  no_file = int_eq (the_fd pid_path env []) minus_one

  abbrev no_lock : Bool
  no_lock = int_eq (env.answer (after_open pid_path env []) (lock_call pid_path env [])) minus_one

  abbrev no_cut : Bool
  no_cut =
      int_eq (env.answer (after_lock pid_path env []) (ftruncate (the_fd pid_path env []) 0))
        minus_one

  abbrev short_line : Bool
  short_line =
      let line = the_line pid_path env [] in
      not (
        int_eq
          (env.answer (getpid ∷ after_cut pid_path env [])
            (write_file (the_fd pid_path env []) line))
          (pos (length line)))

  abbrev pub pid_messages : List Text
  pid_messages =
      if no_file
      then codes "could not write pid file...." ∷ codes "pid write failed" ∷ []
      else if no_lock
      then locked_text ∷ codes "pid write failed" ∷ []
      else if no_cut
      then codes "could not truncate pid file" ∷ codes "pid write failed" ∷ []
      else if short_line
      then codes "writing pid file...."
        ∷ codes "writing to pid file failed"
        ∷ codes "pid write failed"
        ∷ []
      else codes "writing pid file...." ∷ []

abbrev pub shown : List Text → List Text
shown [] = []
shown (msg ∷ more) = c_string msg ∷ shown more

-- The messages among calls, the oldest first.
abbrev printed : List Call → List Text
printed [] = []
printed (print msg ∷ past) = printed past ++ msg ∷ []
printed (_ ∷ past) = printed past

abbrev failure : Outcome Bool → List Text
failure (returned false) = codes "pid write failed" ∷ []
failure _ = []

-- What `write_pid` prints, and that it failed, make up these messages.
printed-pid_messages :
    (pid_path : Text) (env : Env)
    → (b : Bool) × ((write_pid pid_path 0 env []).0 ≡ returned b)
      × (printed (write_pid pid_path 0 env []).1 ++ failure (returned b)
          ≡ pid_messages pid_path env)
unfolding write_pid log_and_flag log_and_lock log_locked log_and_cut log_and_put
printed-pid_messages pid_path env = elim (Bool-cases (no_file pid_path env)) [
  | inl e ↦ (false, rw e refl, rw e refl)
  | inr e ↦ elim (Bool-cases (no_lock pid_path env)) [
    | inl l ↦ (false, rw (e, l) refl, rw (e, l) refl)
    | inr l ↦ elim (Bool-cases (no_cut pid_path env)) [
      | inl c ↦ (false, rw (e, l, c) refl, rw (e, l, c) refl)
      | inr c ↦ elim (Bool-cases (short_line pid_path env)) [
        | inl s ↦ (false, rw (e, l, c, s) refl, rw (e, l, c, s) refl)
        | inr s ↦ (true, rw (e, l, c, s) refl, rw (e, l, c, s) refl)
      ]
    ]
  ]
]

shown-append : (a b : List Text) → shown (a ++ b) ≡ shown a ++ shown b
shown-append [] b = refl
shown-append (msg ∷ a) b = ap (λ (t : List Text). c_string msg ∷ t) (shown-append a b)

log_message-Logged :
    (msg : Text) (g : Facade)
    → g.log_fp ≡ true
    → g.opened ≡ true
    → Logged g
        (c_string msg ∷ [])
        (tt {0})
        (bind_ending (log_message msg g) (λ b h. (h, done (tt {0}))))
unfolding log_message
log_message-Logged msg g l o = logged _ (if_true g.log_fp _ _ l) l o

log_printed-Logged :
    (calls : List Call) (g : Facade)
    → g.log_fp ≡ true
    → g.opened ≡ true
    → Logged g (shown (printed calls)) tt (log_printed calls g)
log_printed-Logged [] g l o = logged g (sym (append-nil g.log)) l o
log_printed-Logged (print msg ∷ past) g l o = rw (shown-append (printed past) (msg ∷ [])) (
    Logged-bind g (shown (printed past)) (c_string msg ∷ []) tt tt (log_printed past g) _
      (log_printed-Logged past g l o) (log_message-Logged msg))
log_printed-Logged (_ ∷ past) g l o = log_printed-Logged past g l o

after_pid-Logged :
    (b : Bool) (g : Facade)
    → g.log_fp ≡ true
    → g.opened ≡ true
    → Logged g (shown (failure (returned b))) tt (after_pid (returned b) g)
after_pid-Logged true g l o = logged g (sym (append-nil g.log)) l o
after_pid-Logged false g l o = log_message-Logged (codes "pid write failed") g l o

-- Noting the pid writes these messages to the log and goes on.
pub note_pid-Logged :
    (pid_path : Text) (env : Env) (g : Facade)
    → g.log_fp ≡ true
    → g.opened ≡ true
    → Logged g (shown (pid_messages pid_path env)) tt (note_pid pid_path env g)
unfolding note_pid
note_pid-Logged pid_path env g l o =
    let (b, r, p) = printed-pid_messages pid_path env in
    rw (sym p, shown-append (printed (write_pid pid_path 0 env []).1) (failure (returned b)), r)
      (Logged-bind g _ (shown (failure (returned b))) tt tt
        (log_printed (write_pid pid_path 0 env []).1 g) (λ u. after_pid (returned b))
        (log_printed-Logged (write_pid pid_path 0 env []).1 g l o) (after_pid-Logged b))
