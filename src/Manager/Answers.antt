-- ===== src/Manager/Answers.antt =====
-- The answers of the authentication manager: those of the dispatch daemon's reference, but none to `login`.
use cci_daemon.Base.{
  ℕ, ◌+◌, ◌≡◌, ◌≤◌, ◌<◌, inl, inr, refl, sym, ap, ap₂, ◌∙◌, true, false, Option, none, some, [],
  ◌∷◌, ◌++◌, arith, ltb, length, Text, codes, Lacks, size_mod, Bool-cases, ℤ, pos, subst,
}
use cci_daemon.Handler.State.{ProcHandler, in_states}
use cci_daemon.Handler.Strings.{lcase}
use cci_daemon.Handler.Protocol.{
  max_token_length, command, Parts, find_part, text_eq, find_command, bare_line, is_no_error,
}
use cci_daemon.Handler.Protocol
use cci_daemon.Handler.Protocol.Perform.{login_map}
use cci_daemon.Handler.Protocol.Session.{execute-Ready}
use cci_daemon.Handler.Protocol.Reference.{Client, split_word, command_name, line_answer}
use cci_daemon.Handler.Protocol.Refine.{
  line_end, split-cases, Represents, parsed, parse_line, find_known,
}
use cci_daemon.Handler.Protocol.Line.{not_bare_line, execute-line_answer}
use cci_daemon.Manager.State.{AuthCommand, AuthMgrHandler, flush_stream_to_connector}
use cci_daemon.Manager.Protocol.{
  parse_command, login, dispatch, perform_parts, perform, respond, execute,
}
use cci_daemon.Manager.Equivalence.{as_proc, parse_command-same, execute-as_proc}
use cci_daemon.Manager.Named.{
  named, is_login, first_word, manager_answer, shape, no_feed_rest, rest_fits, line-NoLogin,
}

-- What an answer leaves, as with the dispatch daemon.
abbrev pub Answered : AuthMgrHandler → AuthMgrHandler × ℤ → Client × Text → Type 0
Answered a b r = Represents (as_proc b.0) r.0 × (b.0.sent ≡ a.sent ++ r.1) × (b.1 ≡ pos 0)

other_line :
    (a : AuthMgrHandler) (c : Client) (line : Text)
    → Represents (as_proc a) c
    → Lacks b'\n' line
    → length line + 2 < size_mod
    → is_login (named (split_word line)) ≡ false
    → Answered a (execute a (line ++ line_end)) (line_answer c line)
unfolding as_proc
other_line a c line r l w n =
    let (e, f) = execute-line_answer (as_proc a) c line r l w in
    let (same, result) =
      execute-as_proc a (line ++ line_end) r.ready.command_map (line-NoLogin a line l w n) in
    (
      subst (λ (h : ProcHandler). Represents h (line_answer c line).0) (sym same) e,
      ap ProcHandler.sent same ∙ f,
      result ∙ (execute-Ready (as_proc a) (line ++ line_end) r.ready).1,
    )

perform_parts-login :
    (b : AuthMgrHandler) (parts : Parts) (name : Text)
    → is_no_error b.error_packet ≡ true
    → find_part command parts ≡ some name
    → b.command_map ≡ login_map
    → text_eq (codes "login") (lcase name) ≡ true
    → perform_parts (b, parts) ≡ record b { command = AuthCommand.login }
unfolding perform_parts dispatch login
perform_parts-login b parts name n f m e =
    rw (n, f, find_known b.command_map (lcase name) m, e) refl

perform_content :
    (a : AuthMgrHandler) (x : ℕ) (xs : Text)
    → perform a (x ∷ xs) ≡ perform_parts (parse_command a (x ∷ xs))
unfolding perform
perform_content a x xs = refl

run_login :
    (a b : AuthMgrHandler) (request : Text)
    → bare_line request ≡ false
    → perform a request ≡ record b { command = AuthCommand.login }
    → is_no_error b.error_packet ≡ true
    → execute a request
      ≡ (flush_stream_to_connector (record b { command = AuthCommand.login }), pos 0)
unfolding execute respond
run_login a b request n p e = rw (n, p, e) refl

-- What is known of a handler that has parsed a `login`.
record Parsed (a b : AuthMgrHandler) (tok : Text) : Type 0 where
  command_map : b.command_map ≡ a.command_map
  stream : b.stream ≡ a.stream
  sent : b.sent ≡ a.sent
  token : b.token ≡ tok
  no_error : is_no_error b.error_packet ≡ true

as_proc-Parsed :
    (a b : AuthMgrHandler) (tok name : Text)
    → as_proc b ≡ parsed (as_proc a) tok name
    → Parsed a b tok
unfolding as_proc parsed
as_proc-Parsed a b tok name e = record {
  command_map = ap ProcHandler.command_map e;
  stream = ap ProcHandler.stream e;
  sent = ap ProcHandler.sent e;
  token = ap ProcHandler.token e;
  no_error = ap (λ (h : ProcHandler). is_no_error h.error_packet) e;
}

login-Answered :
    (a b : AuthMgrHandler) (c : Client) (tok : Text)
    → Represents (as_proc a) c
    → Parsed a b tok
    → Answered a
        (flush_stream_to_connector (record b { command = AuthCommand.login }), pos 0)
        (record c { token = tok }, [])
unfolding as_proc flush_stream_to_connector in_states
login-Answered a b c tok r p = (
  record {
    ready = record {
      command_map = p.command_map ∙ r.ready.command_map;
      not_logout = λ e. cc;
      flushed = refl;
    };
    loud = refl;
    token = p.token;
    inside = r.inside;
  },
  ap₂ (λ (u v : Text). u ++ v) p.sent (p.stream ∙ r.ready.flushed),
  refl,
)

login_line :
    (a : AuthMgrHandler) (c : Client) (x : ℕ) (xs tok rest : Text)
    → Represents (as_proc a) c
    → Lacks b'\n' (x ∷ xs)
    → length (x ∷ xs) + 2 < size_mod
    → x ∷ xs ≡ tok ++ b' ' ∷ rest
    → Lacks b' ' tok
    → length tok ≤ max_token_length
    → text_eq (codes "login") (lcase (command_name rest)) ≡ true
    → Answered a (execute a ((x ∷ xs) ++ line_end)) (record c { token = tok }, [])
unfolding as_proc
login_line a c x xs tok rest r l w f k short y =
    let whole = (x ∷ xs) ++ line_end in
    let (parts, p, g) =
      parse_line (as_proc a) tok rest k short (no_feed_rest (x ∷ xs) tok rest f l)
        (rest_fits (x ∷ xs) tok rest f w) in
    let whole_parsed =
      ap (Protocol.parse_command (as_proc a)) (sym (shape (x ∷ xs) tok rest f)) ∙ p in
    let b = (parse_command a whole).0 in
    let (same, same_parts, keeps, kept) = parse_command-same a whole in
    let b-Parsed =
      as_proc-Parsed a b tok (command_name rest)
        (same ∙ ap (λ (q : ProcHandler × Parts). q.0) whole_parsed) in
    let found =
      ap (find_part command) (same_parts ∙ ap (λ (q : ProcHandler × Parts). q.1) whole_parsed)
      ∙ g in
    rw
      (run_login a b whole (not_bare_line x xs)
        (perform_content a x (xs ++ line_end)
          ∙ perform_parts-login b (parse_command a whole).1 (command_name rest) b-Parsed.no_error
              found (b-Parsed.command_map ∙ r.ready.command_map) y)
        b-Parsed.no_error)
      (login-Answered a b c tok r b-Parsed)

login_named :
    (tok rest : Text)
    → is_login (named (some (tok, rest))) ≡ true
    → (length tok ≤ max_token_length) × (text_eq (codes "login") (lcase (command_name rest)) ≡ true)
login_named tok rest y = elim (Bool-cases (ltb max_token_length (length tok))) [
  | inl t ↦ absurd (cc (sym (ap is_login (named_long t)) ∙ y))
  | inr t ↦ (ground arith, sym (ap is_login (named_short t)) ∙ y)
]
  where
    named_long : ltb max_token_length (length tok) ≡ true → named (some (tok, rest)) ≡ none
    named_long t = rw t refl

    named_short :
        ltb max_token_length (length tok) ≡ false
        → named (some (tok, rest)) ≡ some (command_name rest)
    named_short t = rw t refl

empty_unnamed : is_login (named (split_word [])) ≡ false
unfolding split_word
empty_unnamed = refl

login_any :
    (a : AuthMgrHandler) (c : Client) (line : Text)
    → Represents (as_proc a) c
    → Lacks b'\n' line
    → length line + 2 < size_mod
    → is_login (named (split_word line)) ≡ true
    → Answered a
        (execute a (line ++ line_end))
        (record c { token = first_word (split_word line) }, [])
login_any a c [] r l w y = absurd (cc (y, empty_unnamed))
login_any a c (x ∷ xs) r l w y = elim (split-cases (x ∷ xs)) [
  | inl (e, k) ↦ absurd (cc (sym (ap (λ (o : Option (Text × Text)). is_login (named o)) e) ∙ y))
  | inr (tok, rest, e, f, k) ↦
      let (short, t) =
        login_named tok rest (sym (ap (λ (o : Option (Text × Text)). is_login (named o)) e) ∙ y) in
      rw e (login_line a c x xs tok rest r l w f k short t)
]

-- A whole line, as the manager's reference answers it.
pub execute-manager_answer :
    (a : AuthMgrHandler) (c : Client) (line : Text)
    → Represents (as_proc a) c
    → Lacks b'\n' line
    → length line + 2 < size_mod
    → Answered a (execute a (line ++ line_end)) (manager_answer c line)
unfolding manager_answer
execute-manager_answer a c line r l w = elim (Bool-cases (is_login (named (split_word line)))) [
  | inl e ↦ rw e (login_any a c line r l w e)
  | inr e ↦ rw e (other_line a c line r l w e)
]
