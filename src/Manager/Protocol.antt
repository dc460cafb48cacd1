-- ===== src/Manager/Protocol.antt =====
-- A request to the authentication manager: `parse_command`, `perform`, `on_login`, and the read loop
-- `process`, of cci_daemon/src/manager/auth_mgr_handler.cpp. What works on texts and parts alone is the same
-- code as in the dispatch daemon, and is taken from there.
use cci_daemon.Base.{
  ℕ, zero, suc, ◌+◌, Bool, true, false, not, Option, none, some, List, [], ◌∷◌, ◌++◌, ltb,
  if◌then◌else◌, length, is_empty, replicate, Text, codes, find_first_of, substr, npos, c_string, ℤ,
  pos, minus_one,
}
use cci_daemon.Handler.State.{
  PacketError, token_too_long, invalid_payload, invalid_syntax, unrecognized_command,
  no_packet_error, Action, on_login, crlf,
}
use cci_daemon.Manager.Strings.{AuthPacketError, chomp, rtrimlast, lcase}
use cci_daemon.Handler.Protocol.{
  max_token_length, token, command, payload, Parts, find_part, space, find_command, or_empty,
  is_no_error, bare_line, receive, zero_fill, int_size, interrupted, incomplete, is_minus_one,
}
use cci_daemon.Manager.State.{
  AuthCommand, AuthMgrHandler, flush_stream_to_connector, write, output_prompt, format_packet_error,
}

abbrev pub fail : AuthMgrHandler → AuthPacketError → AuthMgrHandler
fail a e = record a { error_packet = e }

-- From "get the command" on: `str` is what follows the token.
unfoldable pub parse_rest : AuthMgrHandler → Text → Parts → AuthMgrHandler × Parts
parse_rest a str parts =
    if is_empty str then (fail a invalid_syntax, parts) else elim (find_first_of space str) [
      | none ↦
          let name = rtrimlast str (codes "\n") in
          (
            record a { command_str = name; error_packet = no_packet_error },
            parts ++ (command, name) ∷ [],
          )
      | some idx ↦
          let name = substr str 0 idx in
          let rest = chomp (substr str (idx + 1) npos) (codes "\n") in
          (
            record a { command_str = name; error_packet = no_packet_error },
            parts ++ (command, name) ∷ (payload, rest) ∷ [],
          )
    ]

unfoldable pub parse_command : AuthMgrHandler → Text → AuthMgrHandler × Parts
parse_command a packet =
    if is_empty packet then (fail a invalid_syntax, []) else elim (find_first_of space packet) [
      | none ↦ (fail a PacketError.no_command, [])
      | some idx ↦
          let tok = substr packet 0 idx in
          if ltb max_token_length (length tok)
          then (fail a token_too_long, [])
          else parse_rest (record a { token = tok }) (substr packet (idx + 1) npos)
              ((token, tok) ∷ [])
    ]

-- `on_login` only notes the command.
unfoldable pub login : AuthMgrHandler → Text → AuthMgrHandler × ℤ
login a params = (record a { command = AuthCommand.login }, pos 0)

abbrev pub call : Action → AuthMgrHandler → Text → AuthMgrHandler × ℤ
call on_login a params = login a params

-- The part of `perform` behind the look-up in the command map.
unfoldable pub dispatch : AuthMgrHandler → Parts → Option (Option Action) → AuthMgrHandler
dispatch a parts none = fail a unrecognized_command
dispatch a parts (some none) =
    let b = write a (output_prompt a false) in
    flush_stream_to_connector (write b (codes "NO no default action for this keyword" ++ crlf))
dispatch a parts (some (some f)) = (call f a (or_empty (find_part payload parts))).0

unfoldable pub perform_parts : AuthMgrHandler × Parts → AuthMgrHandler
perform_parts (a, parts) =
    if not (is_no_error a.error_packet) then a else elim (find_part command parts) [
      | none ↦ a
      | some name ↦ dispatch a parts (find_command (lcase name) a.command_map)
    ]

unfoldable pub perform : AuthMgrHandler → Text → AuthMgrHandler
perform a str = if is_empty str then fail a invalid_payload else perform_parts (parse_command a str)

abbrev pub is_logout : AuthCommand → Bool
is_logout AuthCommand.logout = true
is_logout _ = false

-- What follows `perform`, up to the `break`; `bare` is the test for a line feed in two bytes.
unfoldable pub respond : AuthMgrHandler → Bool → AuthMgrHandler × ℤ
respond a bare =
    if bare
    then (flush_stream_to_connector (write a (output_prompt a false)), pos 0)
    else if is_logout a.command
    then (flush_stream_to_connector a, minus_one)
    else if not (is_no_error a.error_packet)
    then (format_packet_error a a.error_packet, pos 0)
    else (flush_stream_to_connector a, pos 0)

unfoldable pub execute : AuthMgrHandler → Text → AuthMgrHandler × ℤ
execute a request = respond (perform a request) (bare_line request)

-- The tests behind one read, on the request so far; `more` is what the next rounds give.
unfoldable pub judge :
    AuthMgrHandler
    → Text
    → List Text
    → AuthMgrHandler × ℤ × List Text
    → AuthMgrHandler × ℤ × List Text
judge a request chunks more =
    if interrupted request
    then (a, minus_one, chunks)
    else if incomplete request
    then more
    else ((execute a request).0, (execute a request).1, chunks)

-- One result of `peer().recv` an entry, as in the dispatch daemon.
unfoldable pub process_loop :
    AuthMgrHandler → Text → Text → List Text → AuthMgrHandler × ℤ × List Text
process_loop a rdbuf ostr [] = (a, pos 0, [])
process_loop a rdbuf ostr ([] ∷ chunks) = (a, pos 0, chunks)
process_loop a rdbuf ostr ((b ∷ bs) ∷ chunks) =
    let filled = receive (b ∷ bs) rdbuf in
    let request = ostr ++ c_string filled in
    judge a request chunks (process_loop a (zero_fill int_size filled) request chunks)

unfoldable pub process : AuthMgrHandler → ℕ → List Text → AuthMgrHandler × ℤ × List Text
process a rdbuf_len chunks = process_loop (fail a no_packet_error) (replicate rdbuf_len 0) [] chunks

-- `svc`, for so many rounds; it ends when `process` gives -1.
unfoldable pub svc : ℕ → AuthMgrHandler → ℕ → List Text → AuthMgrHandler × Option ℤ
svc zero a rdbuf_len chunks = (a, none)
svc (suc rounds) a rdbuf_len chunks =
    let after = process a rdbuf_len chunks in
    let rest = svc rounds after.0 rdbuf_len after.2 in
    if is_minus_one after.1 then (after.0, some minus_one) else rest
