-- ===== src/Manager/Equivalence.antt =====
-- The authentication manager as a dispatch daemon that is never silent: every request but `login` gets the
-- same answer.
use cci_daemon.Base.{
  ◌≡◌, ◌≢◌, inl, inr, refl, sym, ap, ap₂, ◌∙◌, Bool, true, false, some, [], ◌∷◌, ◌+◌, arith, Text,
  codes, Bool-cases, Option-cases, is_empty, ltb, length, substr, npos, find_first_of,
}
use cci_daemon.Handler.State.{ProcCommand, ProcHandler, PacketError}
use cci_daemon.Handler.Strings.{lcase}
use cci_daemon.Handler.Protocol.{
  max_token_length, token, Parts, find_part, command, is_no_error, find_command, text_eq, space,
  bare_line,
}
use cci_daemon.Handler.Protocol.Perform.{login_map, text_eq-true}
use cci_daemon.Handler.Protocol.Refine.{find_known}
use cci_daemon.Handler.State
use cci_daemon.Handler.Protocol
use cci_daemon.Manager.State.{
  AuthCommand, AuthMgrHandler, format_packet_error, flush_stream_to_connector,
}
use cci_daemon.Manager.Protocol.{
  fail, parse_rest, parse_command, dispatch, perform_parts, perform, respond, execute, is_logout,
}

abbrev pub same_command : AuthCommand → ProcCommand
same_command AuthCommand.login = ProcCommand.login
same_command AuthCommand.logout = ProcCommand.logout
same_command AuthCommand.authenticate = ProcCommand.authenticate
same_command AuthCommand.no_command = ProcCommand.no_command
same_command AuthCommand.error = ProcCommand.error

-- The dispatch daemon's handler with the same fields, that is not silent and whose client is nowhere.
unfoldable pub as_proc : AuthMgrHandler → ProcHandler
as_proc a = record {
  command_map = a.command_map;
  stream = a.stream;
  sent = a.sent;
  computer_name = a.computer_name;
  token = a.token;
  command_str = a.command_str;
  command = same_command a.command;
  error_packet = a.error_packet;
  silent = false;
  current_state = [];
}

-- The same parts, and handlers that correspond.
abbrev SameParts : AuthMgrHandler → AuthMgrHandler × Parts → ProcHandler × Parts → Type 0
SameParts a r s =
    (as_proc r.0 ≡ s.0)
    × (r.1 ≡ s.1)
    × (r.0.command_map ≡ a.command_map)
    × (r.0.command ≡ a.command)

parse_rest-same :
    (a : AuthMgrHandler) (str : Text) (parts : Parts)
    → SameParts a (parse_rest a str parts) (Protocol.parse_rest (as_proc a) str parts)
unfolding parse_rest Protocol.parse_rest as_proc
parse_rest-same a str parts = elim (Bool-cases (is_empty str)) [
  | inl e ↦ rw e ((refl, refl, refl, refl))
  | inr e ↦ rw e (elim (Option-cases (find_first_of space str)) [
    | inl f ↦ rw f ((refl, refl, refl, refl))
    | inr (i, f) ↦ rw f ((refl, refl, refl, refl))
  ])
]

pub parse_command-same :
    (a : AuthMgrHandler) (packet : Text)
    → SameParts a (parse_command a packet) (Protocol.parse_command (as_proc a) packet)
unfolding parse_command Protocol.parse_command as_proc
parse_command-same a packet = elim (Bool-cases (is_empty packet)) [
  | inl e ↦ rw e ((refl, refl, refl, refl))
  | inr e ↦ rw e (elim (Option-cases (find_first_of space packet)) [
    | inl f ↦ rw f ((refl, refl, refl, refl))
    | inr (i, f) ↦ rw f (elim (Bool-cases (ltb max_token_length (length (substr packet 0 i)))) [
      | inl l ↦ rw l ((refl, refl, refl, refl))
      | inr l ↦ rw l (
          parse_rest-same (record a { token = substr packet 0 i }) (substr packet (i + 1) npos)
            ((token, substr packet 0 i) ∷ []))
    ])
  ])
]

same_logout : (c : AuthCommand) → Protocol.is_logout (same_command c) ≡ is_logout c
same_logout c = ground arith

respond-same :
    (a : AuthMgrHandler) (bare : Bool)
    → (as_proc (respond a bare).0 ≡ (Protocol.respond (as_proc a) bare).0)
      × ((respond a bare).1 ≡ (Protocol.respond (as_proc a) bare).1)
unfolding respond Protocol.respond as_proc format_packet_error flush_stream_to_connector
    State.format_packet_error State.flush_stream_to_connector
respond-same a true = (refl, refl)
respond-same a false = rw (same_logout a.command) (elim (Bool-cases (is_logout a.command)) [
  | inl e ↦ rw e ((refl, refl))
  | inr e ↦ rw e (elim (Bool-cases (is_no_error a.error_packet)) [
    | inl f ↦ rw f ((refl, refl))
    | inr f ↦ rw f ((refl, refl))
  ])
])

dispatch-same :
    (a : AuthMgrHandler) (parts : Parts) (name : Text)
    → a.command_map ≡ login_map
    → lcase name ≢ codes "login"
    → as_proc (dispatch a parts (find_command (lcase name) a.command_map))
      ≡ Protocol.dispatch (as_proc a) parts (find_command (lcase name) a.command_map)
unfolding dispatch Protocol.dispatch as_proc
dispatch-same a parts name m n =
    rw (find_known a.command_map (lcase name) m)
      (elim (Bool-cases (text_eq (codes "login") (lcase name))) [
        | inl e ↦ absurd (n (sym (text_eq-true (codes "login") (lcase name) e)))
        | inr e ↦ rw e refl
      ])

-- A request does not ask for `login`.
abbrev pub NoLogin : AuthMgrHandler → Text → Type 0
NoLogin a request =
    (name : Text)
    → find_part command (parse_command a request).1 ≡ some name
    → lcase name ≢ codes "login"

as_proc-fail :
    (a : AuthMgrHandler) (pe : PacketError) → as_proc (fail a pe) ≡ Protocol.fail (as_proc a) pe
unfolding as_proc
as_proc-fail a pe = refl

perform_parts-same :
    (a : AuthMgrHandler) (parts : Parts)
    → a.command_map ≡ login_map
    → ((name : Text) → find_part command parts ≡ some name → lcase name ≢ codes "login")
    → as_proc (perform_parts (a, parts)) ≡ Protocol.perform_parts (as_proc a, parts)
unfolding perform_parts Protocol.perform_parts as_proc
perform_parts-same a parts m n = elim (Bool-cases (is_no_error a.error_packet)) [
  | inl e ↦ rw e (elim (Option-cases (find_part command parts)) [
    | inl f ↦ rw f refl
    | inr (name, f) ↦ rw f (dispatch-same a parts name m (n name f))
  ])
  | inr e ↦ rw e refl
]

pub perform-same :
    (a : AuthMgrHandler) (request : Text)
    → a.command_map ≡ login_map
    → NoLogin a request
    → as_proc (perform a request) ≡ Protocol.perform (as_proc a) request
unfolding perform Protocol.perform
perform-same a request m n = elim (Bool-cases (is_empty request)) [
  | inl e ↦ rw e (as_proc-fail a State.invalid_payload)
  | inr e ↦ rw e (
      let (same, parts, keeps, kept) = parse_command-same a request in
      perform_parts-same (parse_command a request).0 (parse_command a request).1 (keeps ∙ m) n
      ∙ ap₂ (λ (h : ProcHandler) (ps : Parts). Protocol.perform_parts (h, ps)) same parts)
]

-- Once `login` is all that the command map has, each request that does not name `login` as its command, in any
-- case of letters, does to the authentication manager's handler what it does to a dispatch daemon's that is
-- never silent: the same text is sent, the same fields are left, and the read loop gets the same result.
pub execute-as_proc :
    (a : AuthMgrHandler) (request : Text)
    → a.command_map ≡ login_map
    → NoLogin a request
    → (as_proc (execute a request).0 ≡ (Protocol.execute (as_proc a) request).0)
      × ((execute a request).1 ≡ (Protocol.execute (as_proc a) request).1)
unfolding execute Protocol.execute
execute-as_proc a request m n =
    let (same, result) = respond-same (perform a request) (bare_line request) in
    let e = perform-same a request m n in
    (
      same ∙ ap (λ (h : ProcHandler). (Protocol.respond h (bare_line request)).0) e,
      result ∙ ap (λ (h : ProcHandler). (Protocol.respond h (bare_line request)).1) e,
    )
