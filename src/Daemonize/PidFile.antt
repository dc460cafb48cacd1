-- ===== src/Daemonize/PidFile.antt =====
-- The pid file of cci_daemon/src/core/cci_daemonize.cpp: `lock_region`, `write_pid`, `remove_pid`.
use cci_daemon.Base.{
  ℕ, zero, suc, ◌+◌, ◌-◌, ◌/◌, ◌%◌, ◌≡◌, ◌↔◌, refl, Bool, true, false, not, ◌||◌, List, [], ◌∷◌,
  ◌++◌, arith, ◌==◌, ltb, if◌then◌else◌, Text, codes, c_string, length, take, ℤ, pos, negsuc,
  minus_one, int_eq,
}
use cci_daemon.Host.{
  Call, getpid, stat_file, create_file, fcntl_getfd, fcntl_setfd, set_lock, ftruncate, write_file,
  remove, print, Env, returned, M, pure, ◌>>=◌, ◌>>◌, call, get_errno,
}
use cci_daemon.Daemonize.{has_flag}

abbrev pub cpf_cloexec : ℕ
cpf_cloexec = 1

abbrev pub buffer_size : ℕ
buffer_size = 1024

abbrev pub eagain : ℕ
eagain = 11

abbrev pub eacces : ℕ
eacces = 13

-- `printf` of "%ld\n". 20 rounds are enough for the digits of 64 bits.
abbrev pub digits : ℕ → ℕ → Text
digits zero n = []
digits (suc f) n =
    let front = digits f (n / 10) in
    if ltb n 10 then (b'0' + n) ∷ [] else front ++ (b'0' + n % 10) ∷ []

unfoldable pub print_long : ℤ → Text
print_long (pos n) = digits 20 n ++ b'\n' ∷ []
print_long (negsuc n) = b'-' ∷ (digits 20 (suc n) ++ b'\n' ∷ [])

-- `flags |= FD_CLOEXEC`, in two's complement.
abbrev pub or_cloexec : ℤ → ℤ
or_cloexec (pos n) = pos (n + (1 - n % 2))
or_cloexec (negsuc n) = negsuc (n - n % 2)

-- `fcntl( fd , F_SETLK , &fl )`, with the type, whence, start and length of the lock.
abbrev pub lock_region : ℤ → ℕ → ℕ → ℕ → ℕ → M ℤ
lock_region fd type whence start len = call (set_lock fd type whence start len)

abbrev pub f_wrlck : ℕ
f_wrlck = 1

abbrev pub seek_set : ℕ
seek_set = 0

abbrev pub say : Text → Bool → M Bool
say message b = do call (print message); pure b

unfoldable pub set_cloexec : ℤ → M Bool
set_cloexec fd = do
  flags ← call (fcntl_getfd fd)
  if int_eq flags minus_one then say (codes "could not get flags for pid file\n") false else do
    set ← call (fcntl_setfd fd (or_cloexec flags))
    if int_eq set minus_one
        then say (codes "could not set flags for pid file\n") false
        else pure true

-- The text that is written; `snprintf` cuts it to the buffer.
unfoldable pub pid_line : ℤ → Text
pid_line pid = c_string (take (buffer_size - 1) (print_long pid))

unfoldable pub put_pid : ℤ → M Bool
put_pid fd = do
  call (print (codes "writing pid file....\n"))
  pid ← call getpid
  written ← call (write_file fd (pid_line pid))
  if not (int_eq written (pos (length (pid_line pid))))
      then say (codes "writing to pid file failed\n") false
      else pure true

unfoldable pub not_locked : M Bool
not_locked = do
  e ← get_errno
  say
      (if e == eagain || e == eacces
        then codes "pid file is locked; probably daemon is already running\n"
        else codes "unable to lock pid file\n")
      false

unfoldable pub cut_and_put : ℤ → M Bool
cut_and_put fd = do
  cut ← call (ftruncate fd 0)
  if int_eq cut minus_one then say (codes "could not truncate pid file\n") false else put_pid fd

unfoldable pub lock_and_put : ℤ → M Bool
lock_and_put fd = do
  locked ← lock_region fd f_wrlck seek_set 0 0
  if int_eq locked minus_one then not_locked else cut_and_put fd

unfoldable pub flag_and_put : ℤ → ℕ → M Bool
flag_and_put fd flags = do
  go_on ← if has_flag flags cpf_cloexec then set_cloexec fd else pure true
  if go_on then lock_and_put fd else pure false

unfoldable pub create_and_put : Text → ℕ → M Bool
create_and_put pid_file flags = do
  fd ← call (create_file pid_file)
  if int_eq fd minus_one
      then say (codes "could not write pid file....\n") false
      else flag_and_put fd flags

unfoldable pub write_pid : Text → ℕ → M Bool
write_pid pid_file flags = do
  there ← call (stat_file pid_file)
  if not (int_eq there minus_one)
      then say (codes "...pid file exists...aborting...\n") false
      else create_and_put pid_file flags

unfoldable pub remove_pid : Text → M Bool
remove_pid pid_file = do
  r ← call (remove pid_file)
  pure (if not (int_eq r (pos 0)) then false else true)

abbrev pub Runs : Env → List Call → M Bool → Type 0
Runs env past m = (m env past).0 ≡ returned true

pub said_false :
    (message : Text) (env : Env) (past : List Call) → ¬ Runs env past (say message false)
said_false message env past h = ground arith

not_locked_false : (env : Env) (past : List Call) → ¬ Runs env past not_locked
unfolding not_locked
not_locked_false env past h = ground arith

-- A guard that ends in failure lets a program come to true only where its test fails.
pub guard_iff {ℓ} :
    {B : Type ℓ} (c : Bool) (m k : M Bool) (env : Env) (past : List Call)
    → ¬ Runs env past m
    → Runs env past k ↔ B
    → Runs env past (if c then m else k) ↔ (c ≡ false) × B
guard_iff true m k env past bad k_iff = ((λ e. absurd (bad e)), (λ p. ground arith))
guard_iff false m k env past bad k_iff = ((λ e. (refl, k_iff.0 e)), (λ p. k_iff.1 p.1))

pub last_iff :
    (c : Bool) (m : M Bool) (env : Env) (past : List Call)
    → ¬ Runs env past m
    → Runs env past (if c then m else pure true) ↔ (c ≡ false)
last_iff true m env past bad = ((λ e. absurd (bad e)), (λ p. ground arith))
last_iff false m env past bad = ((λ e. refl), (λ p. refl))

-- The answers of the system to `write_pid` without flags.
module _ (pid_file : Text) (env : Env) (past : List Call) where
  abbrev pub after_stat : List Call
  after_stat = stat_file pid_file ∷ past

  abbrev pub the_fd : ℤ
  the_fd = env.answer after_stat (create_file pid_file)

  abbrev pub after_open : List Call
  after_open = create_file pid_file ∷ after_stat

  abbrev pub lock_call : Call
  lock_call = set_lock the_fd f_wrlck seek_set 0 0

  abbrev pub after_lock : List Call
  after_lock = lock_call ∷ after_open

  abbrev pub after_cut : List Call
  after_cut = print (codes "writing pid file....\n") ∷ ftruncate the_fd 0 ∷ after_lock

  abbrev pub the_line : Text
  the_line = pid_line (env.answer after_cut getpid)

  abbrev pub IsWritten : Type 0
  IsWritten =
      not (
        int_eq (env.answer (getpid ∷ after_cut) (write_file the_fd the_line))
          (pos (length the_line)))
      ≡ false

  abbrev pub IsCut : Type 0
  IsCut = (int_eq (env.answer after_lock (ftruncate the_fd 0)) minus_one ≡ false) × IsWritten

  abbrev pub IsLocked : Type 0
  IsLocked = (int_eq (env.answer after_open lock_call) minus_one ≡ false) × IsCut

  abbrev pub IsOpened : Type 0
  IsOpened = (int_eq the_fd minus_one ≡ false) × IsLocked

  -- There is no such file, every call succeeds, and the line is written whole.
  abbrev pub Succeeds : Type 0
  Succeeds = (not (int_eq (env.answer past (stat_file pid_file)) minus_one) ≡ false) × IsOpened

  put_pid_iff : Runs env (ftruncate the_fd 0 ∷ after_lock) (put_pid the_fd) ↔ IsWritten
  unfolding put_pid
  put_pid_iff = last_iff _ _ env _ (said_false (codes "writing to pid file failed\n") env past)

  cut_and_put_iff : Runs env after_lock (cut_and_put the_fd) ↔ IsCut
  unfolding cut_and_put
  cut_and_put_iff =
      guard_iff (int_eq (env.answer after_lock (ftruncate the_fd 0)) minus_one) (say _ false)
        (put_pid the_fd) env _ (said_false (codes "could not truncate pid file\n") env past)
        put_pid_iff

  lock_and_put_iff : Runs env after_open (lock_and_put the_fd) ↔ IsLocked
  unfolding lock_and_put
  lock_and_put_iff =
      guard_iff (int_eq (env.answer after_open lock_call) minus_one) not_locked (cut_and_put the_fd)
        env after_lock (not_locked_false env after_lock) cut_and_put_iff

  create_and_put_iff : Runs env after_stat (create_and_put pid_file 0) ↔ IsOpened
  unfolding create_and_put flag_and_put
  create_and_put_iff =
      guard_iff (int_eq the_fd minus_one) (say (codes "could not write pid file....\n") false)
        (lock_and_put the_fd) env after_open
        (said_false (codes "could not write pid file....\n") env after_open) lock_and_put_iff

  -- Without flags, `write_pid` returns true exactly when the file is not there, it can be opened,
  -- locked and truncated, and the process id's line is written whole.
  pub write_pid_iff : Runs env past (write_pid pid_file 0) ↔ Succeeds
  unfolding write_pid
  write_pid_iff =
      guard_iff (not (int_eq (env.answer past (stat_file pid_file)) minus_one))
        (say (codes "...pid file exists...aborting...\n") false) (create_and_put pid_file 0) env
        after_stat (said_false (codes "...pid file exists...aborting...\n") env after_stat)
        create_and_put_iff
