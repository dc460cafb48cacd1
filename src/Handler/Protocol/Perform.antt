-- ===== src/Handler/Protocol/Perform.antt =====
-- What one request does to the handler: `perform` refuses it with an error, or logs the client in.
use cci_daemon.Base.{
  ◌+◌, ◌≡◌, ◌≢◌, ◌⊎◌, inl, inr, refl, sym, ◌∙◌, true, false, Option, some, List, [], ◌∷◌, ◌++◌,
  arith, ltb, length, Text, codes, substr, npos, find_first_of, Bool-cases, Option-cases,
}
use cci_daemon.Handler.State.{
  ProcCommand, no_packet_error, authenticated, Action, on_login, crlf, ProcHandler,
  check_connection_state, update_connection_state, output_ok_response, in_states,
}
use cci_daemon.Handler.Strings.{lcase}
use cci_daemon.Handler.Protocol.{
  PacketPart, command, Parts, find_part, space, max_token_length, parse_rest, parse_command, login,
  text_eq, find_command, dispatch, is_no_error, perform_parts, perform,
}

-- The map that `map_commands` leaves.
abbrev pub login_map : List (Text × Option Action)
login_map = (codes "login", some on_login) ∷ []

abbrev pub ok_line : Text → Text
ok_line tok = tok ++ codes " " ++ codes "OK " ++ codes "login completed" ++ crlf

-- What neither a refused nor an accepted request changes.
pub record Keeps (h a : ProcHandler) : Type 0 where
  pub sent : a.sent ≡ h.sent
  pub silent : a.silent ≡ h.silent
  pub command_map : a.command_map ≡ h.command_map

pub record Refused (h a : ProcHandler) : Type 0 where
  pub keeps : Keeps h a
  pub stream : a.stream ≡ h.stream
  pub current_state : a.current_state ≡ h.current_state
  pub error : a.error_packet ≢ no_packet_error
  pub command : (a.command ≡ h.command) ⊎ (a.command ≡ ProcCommand.login)

pub record LoggedIn (h a : ProcHandler) : Type 0 where
  pub keeps : Keeps h a
  pub stream : a.stream ≡ h.stream ++ ok_line a.token
  pub current_state : a.current_state ≡ authenticated ∷ h.current_state
  pub was_out : check_connection_state h authenticated ≡ false
  pub error : a.error_packet ≡ no_packet_error
  pub command : a.command ≡ ProcCommand.login
  pub requested : lcase a.command_str ≡ codes "login"

-- Parsing touches the token, the command text and the error only.
pub record Parsed (h a : ProcHandler) : Type 0 where
  pub keeps : Keeps h a
  pub stream : a.stream ≡ h.stream
  pub current_state : a.current_state ≡ h.current_state
  pub command : a.command ≡ h.command

parse_rest-Parsed :
    (h : ProcHandler) (str : Text) (parts : Parts) → Parsed h (parse_rest h str parts).0
unfolding parse_rest
parse_rest-Parsed h [] parts = ground arith
parse_rest-Parsed h (x ∷ xs) parts = elim (Option-cases (find_first_of space (x ∷ xs))) [
  | inl e ↦ rw e (ground arith)
  | inr (i, e) ↦ rw e (ground arith)
]

parse_token-Parsed :
    (h : ProcHandler) (tok str : Text) (parts : Parts)
    → Parsed h (parse_rest (record h { token = tok }) str parts).0
parse_token-Parsed h tok str parts =
    ground (arith, parse_rest-Parsed (record h { token = tok }) str parts)

pub parse_command-Parsed : (h : ProcHandler) (r : Text) → Parsed h (parse_command h r).0
unfolding parse_command
parse_command-Parsed h [] = ground arith
parse_command-Parsed h (x ∷ xs) = elim (Option-cases (find_first_of space (x ∷ xs))) [
  | inl e ↦ rw e (ground arith)
  | inr (i, e) ↦ rw e (elim (Bool-cases (ltb max_token_length (length (substr (x ∷ xs) 0 i)))) [
    | inl l ↦ rw l (ground arith)
    | inr s ↦ rw s (parse_token-Parsed h (substr (x ∷ xs) 0 i) (substr (x ∷ xs) (i + 1) npos) _)
  ])
]

pub text_eq-true : (s t : Text) → text_eq s t ≡ true → s ≡ t
text_eq-true [] [] h = refl
text_eq-true [] (y ∷ ys) h = cc
text_eq-true (x ∷ xs) [] h = cc
text_eq-true (x ∷ xs) (y ∷ ys) h = ground (arith, text_eq-true xs ys)

-- A parsed request that is not refused names its command.
parse_rest_part :
    (h : ProcHandler) (str tok : Text)
    → (parse_rest h str ((PacketPart.token, tok) ∷ [])).0.error_packet ≡ no_packet_error
    → find_part command (parse_rest h str ((PacketPart.token, tok) ∷ [])).1
      ≡ some (parse_rest h str ((PacketPart.token, tok) ∷ [])).0.command_str
unfolding parse_rest
parse_rest_part h [] tok n = cc
parse_rest_part h (x ∷ xs) tok n = elim (Option-cases (find_first_of space (x ∷ xs))) [
  | inl e ↦ rw e refl
  | inr (i, e) ↦ rw e refl
]

pub parse_command_part :
    (h : ProcHandler) (r : Text)
    → (parse_command h r).0.error_packet ≡ no_packet_error
    → find_part command (parse_command h r).1 ≡ some (parse_command h r).0.command_str
unfolding parse_command
parse_command_part h [] = λ n. cc
parse_command_part h (x ∷ xs) = elim (Option-cases (find_first_of space (x ∷ xs))) [
  | inl e ↦ rw e (λ n. cc)
  | inr (i, e) ↦ rw e (elim (Bool-cases (ltb max_token_length (length (substr (x ∷ xs) 0 i)))) [
    | inl l ↦ rw l (λ n. cc)
    | inr s ↦ rw s (parse_rest_part _ _ _)
  ])
]

login-cases :
    (h a : ProcHandler) (params : Text)
    → Parsed h a
    → lcase a.command_str ≡ codes "login"
    → a.error_packet ≡ no_packet_error
    → Refused h (login a params).0 ⊎ LoggedIn h (login a params).0
unfolding login check_connection_state update_connection_state output_ok_response
login-cases h a params p l n = elim (Bool-cases (in_states authenticated a.current_state)) [
  | inl e ↦ inl (ground arith)
  | inr e ↦ inr (ground arith)
]

-- Under the map of `map_commands` a parsed command is unknown, or it is `login`.
dispatch-cases :
    (h a : ProcHandler) (parts : Parts) (m : List (Text × Option Action))
    → Parsed h a
    → m ≡ login_map
    → a.error_packet ≡ no_packet_error
    → Refused h (dispatch a parts (find_command (lcase a.command_str) m))
      ⊎ LoggedIn h (dispatch a parts (find_command (lcase a.command_str) m))
unfolding dispatch
dispatch-cases h a parts m p e n =
    rw e (elim (Bool-cases (text_eq (codes "login") (lcase a.command_str))) [
      | inl e ↦ rw e (login-cases h a _ p (sym (text_eq-true _ _ e)) n)
      | inr e ↦ rw e (inl (ground arith))
    ])

perform_parts-cases :
    (h : ProcHandler) (ap : ProcHandler × Parts)
    → Parsed h ap.0
    → h.command_map ≡ login_map
    → (ap.0.error_packet ≡ no_packet_error → find_part command ap.1 ≡ some ap.0.command_str)
    → Refused h (perform_parts ap) ⊎ LoggedIn h (perform_parts ap)
unfolding perform_parts
perform_parts-cases h (a, parts) p m named = elim (Bool-cases (is_no_error a.error_packet)) [
  | inl e ↦
      rw (e, named (no_error e))
        (dispatch-cases h a parts a.command_map p (p.keeps.command_map ∙ m) (no_error e))
  | inr e ↦ rw e (inl (ground arith))
]
  where
    no_error : is_no_error a.error_packet ≡ true → a.error_packet ≡ no_packet_error
    no_error e = ground arith

-- With the command map of `map_commands` every request is either refused, with an error set and nothing else changed, or it asked for `login`
-- on a session that was not authenticated, and then the session is, with its confirmation pending.
pub perform-cases :
    (h : ProcHandler) (r : Text)
    → h.command_map ≡ login_map
    → Refused h (perform h r) ⊎ LoggedIn h (perform h r)
unfolding perform
perform-cases h [] m = inl (ground arith)
perform-cases h (x ∷ xs) m =
    perform_parts-cases h (parse_command h (x ∷ xs)) (parse_command-Parsed h (x ∷ xs)) m
      (parse_command_part h (x ∷ xs))
