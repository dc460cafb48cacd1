-- ===== src/Handler/Protocol.antt =====
-- A request: `parse_command`, `perform`, `on_login`, and the read loop `process`, of
-- cci_daemon/src/procs/proc_ace_handler.cpp.
pub mod Parse
pub mod Perform
pub mod Session
pub mod Quiet
pub mod Within
pub mod Bounds
pub mod Reading
pub mod Fragments
pub mod Login
pub mod Reference
pub mod Refine
pub mod Line
pub mod Lines
use cci_daemon.Base.{
  ℕ, zero, suc, ◌+◌, Bool, true, false, not, ◌&&◌, ◌||◌, Option, none, some, List, [], ◌∷◌, ◌++◌,
  ◌==◌, leb, ltb, if◌then◌else◌, length, is_empty, take, drop, replicate, Text, codes, find,
  find_char, find_first_of, substr, npos, c_string, ℤ, pos, negsuc, minus_one,
}
use cci_daemon.Handler.State.{
  ProcCommand, PacketError, token_too_long, invalid_payload, invalid_syntax, unrecognized_command,
  already_authenticated, no_packet_error, ProcState, authenticated, SetOp, Action, on_login, crlf,
  ProcHandler, flush_stream_to_connector, write, output_prompt, output_ok_response,
  output_no_response, format_packet_error, check_connection_state, update_connection_state,
}
use cci_daemon.Handler.Strings.{chomp, rtrimlast, lcase}

abbrev pub max_token_length : ℕ
max_token_length = 10

abbrev pub command_buffer_length : ℕ
command_buffer_length = 1024

pub data PacketPart : Type 0 where
  token command payload uid : PacketPart

abbrev pub part_rank : PacketPart → ℕ
part_rank token = 0
part_rank command = 1
part_rank payload = 2
part_rank uid = 3

abbrev pub Parts : Type 0
Parts = List (PacketPart × Text)

-- `std::multimap::find`.
abbrev pub find_part : PacketPart → Parts → Option Text
find_part p [] = none
find_part p ((q, t) ∷ ps) = if part_rank p == part_rank q then some t else find_part p ps

abbrev pub fail : ProcHandler → PacketError → ProcHandler
fail h e = record h { error_packet = e }

abbrev pub space : Text
space = codes " "

-- From "get the command" on: `str` is what follows the token.
unfoldable pub parse_rest : ProcHandler → Text → Parts → ProcHandler × Parts
parse_rest h str parts =
    if is_empty str then (fail h invalid_syntax, parts) else elim (find_first_of space str) [
      | none ↦
          let name = rtrimlast str (codes "\n") in
          (
            record h { command_str = name; error_packet = no_packet_error },
            parts ++ (command, name) ∷ [],
          )
      | some idx ↦
          let name = substr str 0 idx in
          let rest = chomp (substr str (idx + 1) npos) (codes "\n") in
          (
            record h { command_str = name; error_packet = no_packet_error },
            parts ++ (command, name) ∷ (payload, rest) ∷ [],
          )
    ]

unfoldable pub parse_command : ProcHandler → Text → ProcHandler × Parts
parse_command h packet =
    if is_empty packet then (fail h invalid_syntax, []) else elim (find_first_of space packet) [
      | none ↦ (fail h PacketError.no_command, [])
      | some idx ↦
          let tok = substr packet 0 idx in
          if ltb max_token_length (length tok)
          then (fail h token_too_long, [])
          else parse_rest (record h { token = tok }) (substr packet (idx + 1) npos)
              ((token, tok) ∷ [])
    ]

-- `on_login`: the call to a login context is commented out, and `bRet` is `true`.
unfoldable pub login : ProcHandler → Text → ProcHandler × ℤ
login h params =
    let a = record h { command = ProcCommand.login } in
    if check_connection_state a authenticated
    then (fail a already_authenticated, pos 0)
    else let ret = true in
      if ret
      then (
        output_ok_response (update_connection_state a SetOp.add authenticated)
            (codes "login completed"),
        pos 0,
      )
      else (output_no_response a (codes "login failed"), pos 0)

abbrev pub call : Action → ProcHandler → Text → ProcHandler × ℤ
call on_login h params = login h params

abbrev pub text_eq : Text → Text → Bool
text_eq [] [] = true
text_eq (x ∷ xs) (y ∷ ys) = x == y && text_eq xs ys
text_eq _ _ = false

-- `command_map().find( key )`; `none` is the end iterator.
abbrev pub find_command : Text → List (Text × Option Action) → Option (Option Action)
find_command key [] = none
find_command key ((k, f) ∷ m) = if text_eq k key then some f else find_command key m

abbrev pub or_empty : Option Text → Text
or_empty none = []
or_empty (some t) = t

-- The part of `perform` behind the look-up in the command map.
unfoldable pub dispatch : ProcHandler → Parts → Option (Option Action) → ProcHandler
dispatch h parts none = fail h unrecognized_command
dispatch h parts (some none) =
    let a = write h (output_prompt h false) in
    flush_stream_to_connector (write a (codes "NO no default action for this keyword" ++ crlf))
dispatch h parts (some (some f)) = (call f h (or_empty (find_part payload parts))).0

abbrev pub is_no_error : PacketError → Bool
is_no_error no_packet_error = true
is_no_error _ = false

unfoldable pub perform_parts : ProcHandler × Parts → ProcHandler
perform_parts (h, parts) =
    if not (is_no_error h.error_packet) then h else elim (find_part command parts) [
      | none ↦ h
      | some name ↦ dispatch h parts (find_command (lcase name) h.command_map)
    ]

unfoldable pub perform : ProcHandler → Text → ProcHandler
perform h str = if is_empty str then fail h invalid_payload else perform_parts (parse_command h str)

abbrev pub is_logout : ProcCommand → Bool
is_logout ProcCommand.logout = true
is_logout _ = false

-- `idx != npos`.
abbrev pub found : Option ℕ → Bool
found none = false
found (some i) = true

-- What follows `perform`, up to the `break`; `bare` is the test for a line feed in two bytes.
unfoldable pub respond : ProcHandler → Bool → ProcHandler × ℤ
respond a bare =
    if bare
    then (flush_stream_to_connector (write a (output_prompt a false)), pos 0)
    else if is_logout a.command
    then (flush_stream_to_connector a, minus_one)
    else if not (is_no_error a.error_packet)
    then (format_packet_error a a.error_packet, pos 0)
    else (flush_stream_to_connector a, pos 0)

abbrev pub bare_line : Text → Bool
bare_line request = found (find (codes "\n") request) && length request == 2

-- From "execute" to the `break`, on the request read so far; the result is that of `process`.
unfoldable pub execute : ProcHandler → Text → ProcHandler × ℤ
execute h request = respond (perform h request) (bare_line request)

-- `recv` writes what arrived over the front of the buffer. `rdbuf` is the buffer and nothing behind it, so the text in it
-- is the source's where the chunk is shorter than the buffer, and a NUL stays behind it.
unfoldable pub receive : Text → Text → Text
receive chunk rdbuf = chunk ++ drop (length chunk) rdbuf

-- `memset( rdbuf , '\0' , n )`; the loop passes `sizeof( rdbuf_len )`, the 4 bytes of an `int`.
unfoldable pub zero_fill : ℕ → Text → Text
zero_fill n rdbuf = replicate n 0 ++ drop n rdbuf

abbrev pub int_size : ℕ
int_size = 4

abbrev pub ctrl_c : ℕ
ctrl_c = 3

abbrev pub ctrl_z : ℕ
ctrl_z = 26

-- `ctrl-c,ctrl-z`, by which a client ends the session.
abbrev pub interrupted : Text → Bool
interrupted request = found (find_char ctrl_c request) || found (find_char ctrl_z request)

-- The read loop goes on: there is no line feed yet, and the buffer is not full.
abbrev pub incomplete : Text → Bool
incomplete request =
    not (found (find (codes "\n") request)) && leb (length request) command_buffer_length

-- The tests behind one read, on the request so far; `more` is what the next rounds give.
unfoldable pub judge :
    ProcHandler → Text → List Text → ProcHandler × ℤ × List Text → ProcHandler × ℤ × List Text
judge h request chunks more =
    if interrupted request
    then (h, minus_one, chunks)
    else if incomplete request
    then more
    else ((execute h request).0, (execute h request).1, chunks)

-- One result of `peer().recv` an entry; an empty one, or none left, stands for a result that is not
-- positive. The third part of the value is what the peer sends that is not read yet.
unfoldable pub process_loop : ProcHandler → Text → Text → List Text → ProcHandler × ℤ × List Text
process_loop h rdbuf ostr [] = (h, pos 0, [])
process_loop h rdbuf ostr ([] ∷ chunks) = (h, pos 0, chunks)
process_loop h rdbuf ostr ((b ∷ bs) ∷ chunks) =
    let filled = receive (b ∷ bs) rdbuf in
    let request = ostr ++ c_string filled in
    judge h request chunks (process_loop h (zero_fill int_size filled) request chunks)

unfoldable pub process : ProcHandler → ℕ → List Text → ProcHandler × ℤ × List Text
process h rdbuf_len chunks = process_loop (fail h no_packet_error) (replicate rdbuf_len 0) [] chunks

-- `svc`, the loop of a thread per connection, for so many rounds; it ends when `process` gives -1.
abbrev pub is_minus_one : ℤ → Bool
is_minus_one (pos n) = false
is_minus_one (negsuc n) = n == 0

unfoldable pub svc : ℕ → ProcHandler → ℕ → List Text → ProcHandler × Option ℤ
svc zero h rdbuf_len chunks = (h, none)
svc (suc rounds) h rdbuf_len chunks =
    let after = process h rdbuf_len chunks in
    let rest = svc rounds after.0 rdbuf_len after.2 in
    if is_minus_one after.1 then (after.0, some minus_one) else rest
