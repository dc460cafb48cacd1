-- ===== src/Manager/Lines.antt =====
-- A session of whole lines with the authentication manager.
use cci_daemon.Base.{
  ℕ, zero, suc, ◌≡◌, ◌≤◌, inl, inr, refl, sym, ap, ◌∙◌, Option, none, List, [], ◌∷◌, ◌++◌, arith,
  length, map, All, Text, size_mod, Bool-cases, append_assoc, append-nil, ℤ, pos, minus_one,
  c_string, replicate,
}
use cci_daemon.Handler.State.{no_packet_error}
use cci_daemon.Handler.Protocol.{receive, zero_fill, int_size, interrupted, incomplete}
use cci_daemon.Handler.Protocol.Reading.{
  Reading, closed, ended, request, read_judge, read_loop, read,
}
use cci_daemon.Handler.Protocol.Reference.{Client}
use cci_daemon.Handler.Protocol.Refine.{line_end, Represents}
use cci_daemon.Handler.Protocol.Lines.{IsLine, encoded, read-encoded}
use cci_daemon.Manager.State.{AuthMgrHandler}
use cci_daemon.Manager.Protocol.{fail, execute, judge, process_loop, process, svc}
use cci_daemon.Manager.Named.{manager_answer, manager_answers}
use cci_daemon.Manager.Answers.{execute-manager_answer}
use cci_daemon.Manager.Equivalence.{as_proc}

abbrev pub deliver : AuthMgrHandler → Reading → AuthMgrHandler × ℤ × List Text
deliver a (closed rest) = (a, pos 0, rest)
deliver a (ended rest) = (a, minus_one, rest)
deliver a (request text rest) = ((execute a text).0, (execute a text).1, rest)

judge-deliver :
    (a : AuthMgrHandler) (text : Text) (chunks : List Text) (more : Reading)
    → judge a text chunks (deliver a more) ≡ deliver a (read_judge text chunks more)
unfolding judge read_judge
judge-deliver a text chunks more = elim (Bool-cases (interrupted text)) [
  | inl e ↦ rw e refl
  | inr e ↦ rw e (elim (Bool-cases (incomplete text)) [ inl f ↦ rw f refl | inr f ↦ rw f refl ])
]

process_loop-deliver :
    (chunks : List Text) (a : AuthMgrHandler) (rdbuf ostr : Text)
    → process_loop a rdbuf ostr chunks ≡ deliver a (read_loop rdbuf ostr chunks)
unfolding process_loop read_loop
process_loop-deliver [] a rdbuf ostr = refl
process_loop-deliver ([] ∷ chunks) a rdbuf ostr = refl
process_loop-deliver ((b ∷ bs) ∷ chunks) a rdbuf ostr =
    let filled = receive (b ∷ bs) rdbuf in
    let text = ostr ++ c_string filled in
    rw (process_loop-deliver chunks a (zero_fill int_size filled) text)
      (judge-deliver a text chunks _)

-- The manager reads what the dispatch daemon reads, from any input in any pieces, and hands it to its own
-- `execute`.
pub process-deliver :
    (a : AuthMgrHandler) (n : ℕ) (chunks : List Text)
    → process a n chunks ≡ deliver (fail a no_packet_error) (read n chunks)
unfolding process read
process-deliver a n chunks = process_loop-deliver chunks (fail a no_packet_error) (replicate n 0) []

cleared :
    (a : AuthMgrHandler) (c : Client)
    → Represents (as_proc a) c
    → Represents (as_proc (fail a no_packet_error)) c
unfolding as_proc
cleared a c r = record {
  ready = record {
    command_map = r.ready.command_map;
    not_logout = r.ready.not_logout;
    flushed = r.ready.flushed;
  };
  loud = refl;
  token = r.token;
  inside = r.inside;
}

-- What a session has done: it still runs, it stands for the client's new state, and it has sent the text.
abbrev pub Served : AuthMgrHandler → AuthMgrHandler × Option ℤ → Client × Text → Type 0
Served a b r = Represents (as_proc b.0) r.0 × (b.0.sent ≡ a.sent ++ r.1) × (b.1 ≡ none)

svc-idle :
    (rounds : ℕ) (a : AuthMgrHandler) (c : Client) (n : ℕ)
    → Represents (as_proc a) c
    → Served a (svc rounds a n []) (c, [])
unfolding svc process process_loop
svc-idle zero a c n r = (r, sym (append-nil a.sent), refl)
svc-idle (suc rounds) a c n r = svc-idle rounds (fail a no_packet_error) c n (cleared a c r)

process-encoded :
    (a : AuthMgrHandler) (n : ℕ) (line : Text) (chunks : List Text)
    → IsLine n line
    → let done = execute (fail a no_packet_error) (line ++ line_end) in
      process a n ((line ++ line_end) ∷ chunks) ≡ (done.0, done.1, chunks)
process-encoded a n line chunks i =
    process-deliver a n ((line ++ line_end) ∷ chunks)
    ∙ ap (deliver (fail a no_packet_error)) (read-encoded n line chunks i)

-- A connection's thread of the authentication manager, from a ready handler on, answers lines, each ended by a
-- carriage return and a line feed and read at once, as the dispatch daemon's reference answers a client that is
-- not logged in, but for `login`: it is neither answered nor refused, and only its token is kept. The thread
-- still runs after at least that many rounds. The lines have no line feed, NUL, Ctrl-C and Ctrl-Z, and fit the
-- buffer with their line end.
pub svc-manager_answers :
    (rounds : ℕ) (a : AuthMgrHandler) (c : Client) (n : ℕ) (lines : List Text)
    → Represents (as_proc a) c
    → n ≤ size_mod
    → All (IsLine n) lines
    → length lines ≤ rounds
    → Served a (svc rounds a n (map encoded lines)) (manager_answers c lines)
unfolding svc manager_answers encoded
svc-manager_answers rounds a c n [] r w i k = svc-idle rounds a c n r
svc-manager_answers zero a c n (line ∷ lines) r w i k = absurd (omega arith)
svc-manager_answers (suc rounds) a c n (line ∷ lines) r w (i, is) k =
    let next = fail a no_packet_error in
    let done = execute next (line ++ line_end) in
    let (s, e, z) =
      execute-manager_answer next c line (cleared a c r) i.no_feed (omega (arith, i.fits)) in
    let (t, f, g) =
      svc-manager_answers rounds done.0 (manager_answer c line).0 n lines s w is (omega arith) in
    let texts = (manager_answers (manager_answer c line).0 lines).1 in
    rw (process-encoded a n line (map encoded lines) i, z)
      ((
        t,
        f ∙ ap (λ (u : Text). u ++ texts) e ∙ append_assoc a.sent (manager_answer c line).1 texts,
        g,
      ))
