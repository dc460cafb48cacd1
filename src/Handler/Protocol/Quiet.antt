-- ===== src/Handler/Protocol/Quiet.antt =====
-- The read loop on input without Ctrl-C and Ctrl-Z.
use cci_daemon.Base.{
  ℕ, zero, suc, ◌<◌, ◌≡◌, ◌≢◌, inl, inr, refl, sym, false, none, List, [], ◌∷◌, ◌++◌, arith, ◌==◌,
  length, All, All-append, Text, Lacks, find_char-Lacks, c_string, replicate, drop, Bool-cases, ℤ,
  pos,
}
use cci_daemon.Handler.State.{PacketError, no_packet_error, ProcHandler}
use cci_daemon.Handler.Protocol.Session.{Ready, execute-Ready}
use cci_daemon.Handler.Protocol.{
  fail, receive, zero_fill, int_size, interrupted, ctrl_c, ctrl_z, incomplete, judge, process_loop,
  process, svc,
}

-- Bytes that cannot end the session.
abbrev pub IsQuiet : Text → Type 0
IsQuiet s = Lacks ctrl_c s × Lacks ctrl_z s

abbrev pub Quiet : List Text → Type 0
Quiet = All IsQuiet

pub fail-Ready : (h : ProcHandler) (pe : PacketError) → Ready h → Ready (fail h pe)
fail-Ready h pe v = ground arith

pub IsQuiet-append : (s t : Text) → IsQuiet s → IsQuiet t → IsQuiet (s ++ t)
IsQuiet-append s t (a, b) (c, d) =
    (All-append (λ x. x ≢ ctrl_c) s t a c, All-append (λ x. x ≢ ctrl_z) s t b d)

pub Lacks-drop : (c n : ℕ) (s : Text) → Lacks c s → Lacks c (drop n s)
Lacks-drop c zero s h = h
Lacks-drop c (suc n) [] h = tt
Lacks-drop c (suc n) (x ∷ xs) h = Lacks-drop c n xs h.1

Lacks-zeros : (c n : ℕ) → c ≢ 0 → Lacks c (replicate n 0)
Lacks-zeros c zero h = tt
Lacks-zeros c (suc n) h = ((λ e. h (sym e)), Lacks-zeros c n h)

Lacks-c_string : (c : ℕ) (s : Text) → Lacks c s → Lacks c (c_string s)
unfolding c_string
Lacks-c_string c [] h = tt
Lacks-c_string c (x ∷ xs) h = elim (Bool-cases (x == 0)) [
  | inl e ↦ rw e tt
  | inr e ↦ rw e ((h.0, Lacks-c_string c xs h.1))
]

pub quiet_interrupted : (s : Text) → IsQuiet s → interrupted s ≡ false
quiet_interrupted s (a, b) = rw (find_char-Lacks ctrl_c s a, find_char-Lacks ctrl_z s b)

IsQuiet-c_string : (s : Text) → IsQuiet s → IsQuiet (c_string s)
IsQuiet-c_string s (a, b) = (Lacks-c_string ctrl_c s a, Lacks-c_string ctrl_z s b)

IsQuiet-receive :
    (chunk rdbuf : Text) → IsQuiet chunk → IsQuiet rdbuf → IsQuiet (receive chunk rdbuf)
unfolding receive
IsQuiet-receive chunk rdbuf q (a, b) =
    IsQuiet-append chunk _ q
      (Lacks-drop ctrl_c (length chunk) rdbuf a, Lacks-drop ctrl_z (length chunk) rdbuf b)

IsQuiet-zero_fill : (n : ℕ) (s : Text) → IsQuiet s → IsQuiet (zero_fill n s)
unfolding zero_fill
IsQuiet-zero_fill n s (a, b) =
    IsQuiet-append (replicate n 0) (drop n s)
      (Lacks-zeros ctrl_c n (λ e. omega arith), Lacks-zeros ctrl_z n (λ e. omega arith))
      (Lacks-drop ctrl_c n s a, Lacks-drop ctrl_z n s b)

judge-Quiet :
    (h : ProcHandler) (request : Text) (chunks : List Text) (more : ProcHandler × ℤ × List Text)
    → Ready h
    → IsQuiet request
    → Quiet chunks
    → Ready more.0 × (more.1 ≡ pos 0) × Quiet more.2
    → Ready (judge h request chunks more).0
      × ((judge h request chunks more).1 ≡ pos 0)
      × Quiet (judge h request chunks more).2
unfolding judge
judge-Quiet h request chunks more v q qc m =
    rw (quiet_interrupted request q) (elim (Bool-cases (incomplete request)) [
      | inl e ↦ rw e m
      | inr e ↦ rw e (let (v', z) = execute-Ready h request v in (v', z, qc))
    ])

-- A reader over quiet input only ever stops with 0.
process_loop-Quiet :
    (chunks : List Text) (h : ProcHandler) (rdbuf ostr : Text)
    → Ready h
    → IsQuiet rdbuf
    → IsQuiet ostr
    → Quiet chunks
    → Ready (process_loop h rdbuf ostr chunks).0
      × ((process_loop h rdbuf ostr chunks).1 ≡ pos 0)
      × Quiet (process_loop h rdbuf ostr chunks).2
unfolding process_loop
process_loop-Quiet [] h rdbuf ostr v qb qo qc = (v, refl, tt)
process_loop-Quiet ([] ∷ chunks) h rdbuf ostr v qb qo qc = (v, refl, qc.1)
process_loop-Quiet ((b ∷ bs) ∷ chunks) h rdbuf ostr v qb qo (qb', qc) =
    judge-Quiet h _ chunks _ v (IsQuiet-append ostr _ qo (IsQuiet-c_string _ filled)) qc (
      process_loop-Quiet chunks h _ _ v (IsQuiet-zero_fill int_size _ filled)
        (IsQuiet-append ostr _ qo (IsQuiet-c_string _ filled)) qc)
  where
    filled : IsQuiet (receive (b ∷ bs) rdbuf)
    filled = IsQuiet-receive (b ∷ bs) rdbuf qb' qb

-- Input without Ctrl-C and Ctrl-Z never ends the session of a ready handler: `process` returns 0, and the
-- handler is ready again, however the input is cut into reads.
pub process-Ready :
    (h : ProcHandler) (rdbuf_len : ℕ) (chunks : List Text)
    → Ready h
    → Quiet chunks
    → Ready (process h rdbuf_len chunks).0
      × ((process h rdbuf_len chunks).1 ≡ pos 0)
      × Quiet (process h rdbuf_len chunks).2
unfolding process
process-Ready h rdbuf_len chunks v q =
    process_loop-Quiet chunks (fail h no_packet_error) (replicate rdbuf_len 0) []
      (fail-Ready h no_packet_error v)
      (
        Lacks-zeros ctrl_c rdbuf_len (λ e. omega arith),
        Lacks-zeros ctrl_z rdbuf_len (λ e. omega arith),
      )
      (tt, tt) q

Quiet-runs_on :
    (rounds : ℕ) (h : ProcHandler) (rdbuf_len : ℕ) (chunks : List Text)
    → Ready h
    → Quiet chunks
    → (svc rounds h rdbuf_len chunks).1 ≡ none
unfolding svc
Quiet-runs_on zero h rdbuf_len chunks v q = refl
Quiet-runs_on (suc rounds) h rdbuf_len chunks v q =
    let (v', e, q') = process-Ready h rdbuf_len chunks v q in
    rw e (
      Quiet-runs_on rounds (process h rdbuf_len chunks).0 rdbuf_len (process h rdbuf_len chunks).2
        v' q')

-- A read that the buffer holds with a NUL behind it, and that cannot end the session.
pub record Harmless (rdbuf_len : ℕ) (chunk : Text) : Type 0 where
  pub shorter : length chunk < rdbuf_len
  pub quiet : IsQuiet chunk

Harmless-Quiet : (n : ℕ) (chunks : List Text) → All (Harmless n) chunks → Quiet chunks
Harmless-Quiet n [] a = tt
Harmless-Quiet n (c ∷ cs) (h, a) = (h.quiet, Harmless-Quiet n cs a)

-- The loop of a connection's thread does not end on reads that are shorter than the buffer and have no Ctrl-C and
-- Ctrl-Z, from a ready handler on, not even when the peer has closed the connection and nothing more is read: after
-- any number of rounds it still runs.
pub svc_runs_on :
    (rounds : ℕ) (h : ProcHandler) (rdbuf_len : ℕ) (chunks : List Text)
    → Ready h
    → All (Harmless rdbuf_len) chunks
    → (svc rounds h rdbuf_len chunks).1 ≡ none
svc_runs_on rounds h rdbuf_len chunks v a =
    Quiet-runs_on rounds h rdbuf_len chunks v (Harmless-Quiet rdbuf_len chunks a)
