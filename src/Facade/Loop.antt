-- ===== src/Facade/Loop.antt =====
-- What the default daemon writes to its log.
use cci_daemon.Base.{
  ℕ, ◌≡◌, ◌≤◌, ◌<◌, inl, inr, refl, sym, Bool, true, false, List, [], ◌∷◌, ◌++◌, arith, ◌==◌, Text,
  c_string, subst, Bool-cases, Option-cases, append_assoc, append-nil,
}
use cci_daemon.Facade.{
  Ending, done, System, Facade, ◌>>=◌, bind_ending, log_message, open_log, read_config_file,
}
use cci_daemon.Facade.Exec.{
  Wake, sleep_time, hear, tick, exec_round, exec_loop, default_text, open_default, Starts,
  set_handler, note_pid, daemon_default_exec, sigterm_handler, exec_until_sigterm,
}
use cci_daemon.Facade.PidLog.{shown, pid_messages, note_pid-Logged}
use cci_daemon.Facade.Logged.{
  config_lines, round_lines, next_sleep, Sane, Logged, logged, Logged-bind, if_true, if_false,
  hear-Logged, tick-Logged,
}

round-Logged :
    (u : ℕ) (w : Wake) (f : Facade)
    → f.log_fp ≡ true
    → f.opened ≡ true
    → Sane u w
    → Logged f (round_lines w) (next_sleep w) (exec_round w f)
unfolding exec_round
round-Logged u w f l o s =
    subst (Logged f (round_lines w) (next_sleep w))
      (sym (if_true f.opened ((hear w >>= λ _. tick w) f) (f, done w.left) o))
      (Logged-bind f _ _ tt (next_sleep w) (hear w f) (λ _. tick w) (hear-Logged u w f l o s)
        (tick-Logged w))

-- The same of all the wakes, and the lines and the last sleep that they lead to.
abbrev pub Sanes : ℕ → List Wake → Type 0
Sanes u [] = Unit {0}
Sanes u (w ∷ ws) = Sane u w × Sanes (next_sleep w) ws

abbrev pub all_lines : List Wake → List Text
all_lines [] = []
all_lines (w ∷ ws) = round_lines w ++ all_lines ws

abbrev pub last_sleep : ℕ → List Wake → ℕ
last_sleep u [] = u
last_sleep u (w ∷ ws) = last_sleep (next_sleep w) ws

next_sleep-short : (u : ℕ) (w : Wake) → Sane u w → u ≤ 15 → (0 < next_sleep w) × (next_sleep w ≤ 15)
next_sleep-short u w s h = elim (Bool-cases (w.left == 0)) [
  | inl e ↦ rw e ((omega arith, omega arith))
  | inr e ↦ rw e ((ground arith, omega (arith, s.short)))
]

pub last_sleep-short :
    (u : ℕ) (ws : List Wake)
    → Sanes u ws
    → 0 < u
    → u ≤ 15
    → (0 < last_sleep u ws) × (last_sleep u ws ≤ 15)
last_sleep-short u [] s p h = (p, h)
last_sleep-short u (w ∷ ws) (s, ss) p h =
    let (q, k) = next_sleep-short u w s h in last_sleep-short (next_sleep w) ws ss q k

loop-Logged :
    (u : ℕ) (ws : List Wake) (f : Facade)
    → f.log_fp ≡ true
    → f.opened ≡ true
    → Sanes u ws
    → Logged f (all_lines ws) (last_sleep u ws) (exec_loop ws u f)
unfolding exec_loop
loop-Logged u [] f l o s = logged f (sym (append-nil f.log)) l o
loop-Logged u (w ∷ ws) f l o (s, ss) =
    Logged-bind f (round_lines w) (all_lines ws) (next_sleep w) _ (exec_round w f)
      (λ next. exec_loop ws next) (round-Logged u w f l o s)
      (λ g l' o'. loop-Logged (next_sleep w) ws g l' o' ss)

open_default-Logged :
    (sys : System) (f : Facade)
    → f.opened ≡ false
    → sys.log_accessible ≡ true
    → sys.log_opens ≡ true
    → Logged f (c_string default_text ∷ config_lines sys.config_line) tt (open_default sys f)
unfolding open_default open_log read_config_file log_message
open_default-Logged sys f n a l =
    subst (Logged f (c_string default_text ∷ config_lines sys.config_line) tt)
      (sym (if_false f.opened (f, done tt) _ n))
      (rw (a, l)
        (elim (Option-cases sys.config_line) [
          | inl c ↦ rw c (logged _ refl refl refl)
          | inr (line, c) ↦
              rw c (logged _ (append_assoc f.log (c_string default_text ∷ []) _) refl refl)
        ]))

set_handler-Logged :
    (dump ok : Bool) (g : Facade)
    → g.log_fp ≡ true
    → g.opened ≡ true
    → ok ≡ true
    → Logged g [] tt (set_handler dump ok g)
set_handler-Logged dump ok g l o e = simp e (logged g (sym (append-nil g.log)) l o)

exec-Logged :
    (sys : System) (s : Starts) (ws : List Wake) (f : Facade)
    → f.opened ≡ false
    → sys.log_accessible ≡ true
    → sys.log_opens ≡ true
    → s.sigaction ≡ true
    → s.signal ≡ true
    → Sanes sleep_time ws
    → Logged f
        ((c_string default_text ∷ config_lines sys.config_line)
          ++ (shown (pid_messages s.pid_path s.env) ++ all_lines ws))
        (last_sleep sleep_time ws)
        (daemon_default_exec sys s ws f)
unfolding daemon_default_exec
exec-Logged sys s ws f n a l p q ss =
    Logged-bind f _ _ tt _ (open_default sys f) _ (open_default-Logged sys f n a l) λ g gl go.
      Logged-bind g [] _ tt _ (set_handler s.dump s.sigaction g) _
        (set_handler-Logged s.dump s.sigaction g gl go p)
        λ h hl ho.
          Logged-bind h [] _ tt _ (set_handler s.dump s.signal h) _
            (set_handler-Logged s.dump s.signal h hl ho q)
            λ i il io.
              Logged-bind i _ _ tt _ (note_pid s.pid_path s.env i) _
                (note_pid-Logged s.pid_path s.env i il io)
                λ j jl jo. loop-Logged sleep_time ws j jl jo ss

-- A computation that has written these lines and ended the process with a status.
pub data Exited {ℓ} {A : Type ℓ} (f : Facade) (lines : List Text) (status : ℕ)
    : Facade × Ending A → Type ℓ where
  exited_with :
      (g : Facade) → g.log ≡ f.log ++ lines → Exited f lines status (g, Ending.exited status)

sigterm-Exited :
    (f : Facade) (lines : List Text) (a : ℕ) (r : Facade × Ending ℕ)
    → Logged f lines a r
    → Exited f lines 0 (bind_ending r (λ unslept. sigterm_handler))
unfolding sigterm_handler
sigterm-Exited f lines a _ (logged g e l o) = exited_with g e

-- The default daemon, with a log that is not open yet, writes to it, and nothing else: its start and the
-- configuration, what `write_pid` says on its way, which is that it writes the file or, by the first step that fails,
-- why it could not, and in that case that the pid file was not written, the configuration again after each
-- SIGHUP, and a line whenever `sleep` has slept to its end. It goes on, and each sleep that it asks for is of 1 to
-- 15 seconds. A SIGTERM during a sleep then ends the process with status 0, and nothing more is written to the log.
-- This needs a log that opens, at the start and after each SIGHUP, handlers that can be set, and a
-- `sleep` that leaves at most what it was asked for.
pub daemon_default_exec-Logged :
    (sys : System) (s : Starts) (ws : List Wake) (f : Facade)
    → f.opened ≡ false
    → sys.log_accessible ≡ true
    → sys.log_opens ≡ true
    → s.sigaction ≡ true
    → s.signal ≡ true
    → Sanes sleep_time ws
    → Logged f
        ((c_string default_text ∷ config_lines sys.config_line)
          ++ (shown (pid_messages s.pid_path s.env) ++ all_lines ws))
        (last_sleep sleep_time ws)
        (daemon_default_exec sys s ws f)
      × (0 < last_sleep sleep_time ws)
      × (last_sleep sleep_time ws ≤ 15)
      × Exited f
          ((c_string default_text ∷ config_lines sys.config_line)
            ++ (shown (pid_messages s.pid_path s.env) ++ all_lines ws))
          0
          (exec_until_sigterm sys s ws f)
unfolding exec_until_sigterm
daemon_default_exec-Logged sys s ws f n a l p q ss =
    let (short, most) = last_sleep-short sleep_time ws ss (omega arith) (omega arith) in
    let logs = exec-Logged sys s ws f n a l p q ss in
    (logs, short, most, sigterm-Exited f _ _ (daemon_default_exec sys s ws f) logs)
