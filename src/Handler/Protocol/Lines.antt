-- ===== src/Handler/Protocol/Lines.antt =====
-- A session of whole lines is answered as the reference answers it.
use cci_daemon.Base.{
  ℕ, zero, suc, ◌+◌, ◌≡◌, ◌≢◌, ◌≤◌, ◌<◌, refl, sym, ap, ◌∙◌, Option, none, List, [], ◌∷◌, ◌++◌,
  arith, length, All, All-append, subst, Text, Lacks, size_mod, append-nil, ℤ, map, append_assoc,
}
use cci_daemon.Handler.State.{no_packet_error, ProcHandler}
use cci_daemon.Handler.Protocol.Refine.{line_end, Represents, Answered}
use cci_daemon.Handler.Protocol.Session.{execute-Ready}
use cci_daemon.Handler.Protocol.Quiet.{fail-Ready, IsQuiet}
use cci_daemon.Handler.Protocol.Fragments.{read_one}
use cci_daemon.Handler.Protocol.Reading.{request, read, deliver, process-deliver}
use cci_daemon.Handler.Protocol.Reference.{Client, line_answer, lines_answer}
use cci_daemon.Handler.Protocol.{fail, execute, process, process_loop, ctrl_c, ctrl_z, svc}
use cci_daemon.Handler.Protocol.Line.{execute-line_answer}

-- A line that one read holds, in a buffer of n bytes: without line feed, NUL, Ctrl-C and Ctrl-Z.
pub record IsLine (n : ℕ) (line : Text) : Type 0 where
  pub no_feed : Lacks b'\n' line
  pub no_nul : Lacks 0 line
  pub quiet : IsQuiet line
  pub fits : length line + 2 < n

Lacks-end :
    (c : ℕ) (line : Text)
    → Lacks c line
    → c ≢ b'\r'
    → c ≢ b'\n'
    → Lacks c ((line ++ b'\r' ∷ []) ++ b'\n' ∷ [])
Lacks-end c line l r n =
    All-append (λ b. b ≢ c) (line ++ b'\r' ∷ []) (b'\n' ∷ [])
      (All-append (λ b. b ≢ c) line (b'\r' ∷ []) l ((λ e. r (sym e)), tt)) ((λ e. n (sym e)), tt)

pub read-encoded :
    (n : ℕ) (line : Text) (chunks : List Text)
    → IsLine n line
    → read n ((line ++ line_end) ∷ chunks) ≡ request (line ++ line_end) chunks
read-encoded n line chunks i =
    subst (λ (u : Text). read n (u ∷ chunks) ≡ request u chunks)
      (append_assoc line (b'\r' ∷ []) (b'\n' ∷ []))
      (read_one n (line ++ b'\r' ∷ []) [] chunks
        (Lacks-end 0 line i.no_nul (λ e. omega arith) (λ e. omega arith))
        (
          Lacks-end ctrl_c line i.quiet.0 (λ e. omega arith) (λ e. omega arith),
          Lacks-end ctrl_z line i.quiet.1 (λ e. omega arith) (λ e. omega arith),
        )
        (All-append (λ b. b ≢ b'\n') line (b'\r' ∷ []) i.no_feed ((λ e. omega arith), tt)))

process-encoded :
    (h : ProcHandler) (n : ℕ) (line : Text) (chunks : List Text)
    → IsLine n line
    → let done = execute (fail h no_packet_error) (line ++ line_end) in
      process h n ((line ++ line_end) ∷ chunks) ≡ (done.0, done.1, chunks)
process-encoded h n line chunks i =
    process-deliver h n ((line ++ line_end) ∷ chunks)
    ∙ ap (deliver (fail h no_packet_error)) (read-encoded n line chunks i)

cleared : (h : ProcHandler) (c : Client) → Represents h c → Represents (fail h no_packet_error) c
cleared h c r = record {
  ready = fail-Ready h no_packet_error r.ready;
  loud = r.loud;
  token = r.token;
  inside = r.inside;
}

-- What a session has done: it still runs, it stands for the client's new state, and it has sent the text.
abbrev pub Served : ProcHandler → ProcHandler × Option ℤ → Client × Text → Type 0
Served h a r = Answered h a.0 r × (a.1 ≡ none)

unfoldable pub encoded : Text → Text
encoded line = line ++ line_end

svc-idle :
    (rounds : ℕ) (h : ProcHandler) (c : Client) (n : ℕ)
    → Represents h c
    → Served h (svc rounds h n []) (c, [])
unfolding svc process process_loop
svc-idle zero h c n r = ((r, sym (append-nil h.sent)), refl)
svc-idle (suc rounds) h c n r = svc-idle rounds (fail h no_packet_error) c n (cleared h c r)

-- A connection's thread, from a ready handler on that is not silent, answers lines, each ended by a carriage
-- return and a line feed and read at once, as the reference `lines_answer` does: what it sends is the answers
-- in their order, it keeps the last token and whether the client is logged in, and it still runs after at least
-- that many rounds. The lines have no line feed, NUL, Ctrl-C and Ctrl-Z, and fit the buffer with their line end.
pub svc-lines_answer :
    (rounds : ℕ) (h : ProcHandler) (c : Client) (n : ℕ) (lines : List Text)
    → Represents h c
    → n ≤ size_mod
    → All (IsLine n) lines
    → length lines ≤ rounds
    → Served h (svc rounds h n (map encoded lines)) (lines_answer c lines)
unfolding svc lines_answer encoded
svc-lines_answer rounds h c n [] r w i k = svc-idle rounds h c n r
svc-lines_answer zero h c n (line ∷ lines) r w i k = absurd (omega arith)
svc-lines_answer (suc rounds) h c n (line ∷ lines) r w (i, is) k =
    let next = fail h no_packet_error in
    let done = execute next (line ++ line_end) in
    let (s, e) =
      execute-line_answer next c line (cleared h c r) i.no_feed (omega (arith, i.fits)) in
    let ((t, f), g) =
      svc-lines_answer rounds done.0 (line_answer c line).0 n lines s w is (omega arith) in
    rw
      (
        process-encoded h n line (map encoded lines) i,
        (execute-Ready next (line ++ line_end) (cleared h c r).ready).1,
      )
      (
        (
          t,
          f
              ∙ ap (λ (u : Text). u ++ (lines_answer (line_answer c line).0 lines).1) e
              ∙ append_assoc h.sent (line_answer c line).1
                  (lines_answer (line_answer c line).0 lines).1,
        ),
        g,
      )
