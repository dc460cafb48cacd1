-- ===== src/Handler/State.antt =====
-- The enumerations of include/proc_ace_acceptor.h, the fields of `proc_handler` that its protocol
-- reads and writes, its output, and its connection state. `sent` holds the bytes handed to
-- `peer().send_n`, whose result the code does not look at.
use cci_daemon.Base.{
  ℕ, Bool, true, false, Option, some, List, [], ◌∷◌, ◌++◌, ◌==◌, if◌then◌else◌, Text, codes, take,
}

pub data ProcCommand : Type 0 where
  login logout authenticate register unregister no_command error : ProcCommand

pub data PacketError : Type 0 where
  no_token token_too_long no_command command_too_long : PacketError
  parameters_expected_got_none no_parameters_expected_got_some : PacketError
  too_many_parameters too_few_parameters invalid_payload invalid_syntax : PacketError
  unrecognized_command select_state failure invalid_object invalid_state : PacketError
  invalid_specification no_specification attribute_not_supported not_authenticated : PacketError
  already_authenticated not_enough_privileges no_packet_error : PacketError

pub data ProcState : Type 0 where
  non_authenticated connected authenticated selected admin wait logout : ProcState

pub data SetOp : Type 0 where
  add delete clear : SetOp

-- The functions that `map_commands` registers.
pub data Action : Type 0 where
  on_login : Action

abbrev pub crlf : Text
crlf = b'\r' ∷ b'\n' ∷ []

-- The value of an enumerator, by which `std::set` orders and compares.
abbrev pub rank : ProcState → ℕ
rank non_authenticated = 0
rank connected = 1
rank authenticated = 2
rank selected = 3
rank admin = 4
rank wait = 5
rank ProcState.logout = 6

-- A null function pointer is `none`.
pub record ProcHandler : Type 0 where
  pub command_map : List (Text × Option Action)
  pub stream : Text
  pub sent : Text
  pub computer_name : Text
  pub token : Text
  pub command_str : Text
  pub command : ProcCommand
  pub error_packet : PacketError
  pub silent : Bool
  pub current_state : List ProcState

-- The constructor, on what `gethostname` gives.
unfoldable pub proc_handler : Text → ProcHandler
proc_handler hostname = record {
  command_map = [];
  stream = [];
  sent = [];
  computer_name = hostname;
  token = [];
  command_str = [];
  command = ProcCommand.no_command;
  error_packet = no_packet_error;
  silent = false;
  current_state = non_authenticated ∷ [];
}

-- `std::map::insert` keeps the value of a key that is there; nothing here inserts a key twice.
unfoldable pub map_commands : ProcHandler → ProcHandler
map_commands h = record h { command_map = (codes "login", some on_login) ∷ h.command_map }

unfoldable pub flush_stream_to_connector : ProcHandler → ProcHandler
flush_stream_to_connector h =
    if h.silent
    then record h { stream = [] }
    else record h { sent = h.sent ++ h.stream; stream = [] }

abbrev pub write : ProcHandler → Text → ProcHandler
write h text = record h { stream = h.stream ++ text }

-- `accepted` is how many bytes the socket takes at once; what is in the stream stays there.
unfoldable pub flush_binary_stream_to_connector : ℕ → ProcHandler → Text → ℕ → ProcHandler
flush_binary_stream_to_connector accepted h u_buffer dw_len =
    if h.silent
    then record h { stream = [] }
    else record h { sent = h.sent ++ take accepted (take dw_len u_buffer) }

unfoldable pub stream_out : ProcHandler → Text → ProcHandler
stream_out h str = write h str

unfoldable pub stream_out_front : ProcHandler → Text → ℕ → ProcHandler
stream_out_front h str len = write h (take len str)

unfoldable pub flush_immediate : ProcHandler → Text → ProcHandler
flush_immediate h atom = flush_stream_to_connector (write h atom)

-- `std::ends` writes a NUL.
unfoldable pub output_prompt : ProcHandler → Bool → Text
output_prompt h with_token = if with_token then h.token ++ 0 ∷ [] else []

unfoldable pub output_boiler_plate : ProcHandler → ProcHandler
unfolding output_prompt flush_stream_to_connector
output_boiler_plate h =
    let a = write h (
      codes "* OK cci-dispatch daemon speaking.... "
      ++ h.computer_name
      ++ codes " chromatic universe 2017 all rights reserved  ready") in
    let b = write a crlf in flush_stream_to_connector (write b (output_prompt b false))

unfoldable pub output_ok_response : ProcHandler → Text → ProcHandler
output_ok_response h ack = write h (h.token ++ codes " " ++ codes "OK " ++ ack ++ crlf)

unfoldable pub output_no_response : ProcHandler → Text → ProcHandler
output_no_response h nack = record h {
  stream = h.stream ++ h.token ++ codes " " ++ codes "NO " ++ nack ++ crlf;
  command_str = [];
}

-- The text for each error, in the order of the source's tests.
abbrev pub error_text : PacketError → Text
error_text no_token = codes "no token supplied - expected"
error_text token_too_long = codes "token too long"
error_text PacketError.no_command = codes "no command supplied - expected"
error_text command_too_long = codes "buffer to large"
error_text too_many_parameters = codes "too many parameters supplied"
error_text invalid_payload = codes "invalid buffer"
error_text invalid_syntax = codes "invalid syntax"
error_text unrecognized_command = codes "command unrecognized"
error_text select_state = codes " a target must be selected before a query"
error_text too_few_parameters = codes " too few parameters - more"
error_text no_parameters_expected_got_some = codes " no parameters expected - got some"
error_text parameters_expected_got_none = codes "parameters expected - got none"
error_text failure = codes "a server operation within this context failed"
error_text invalid_object = codes "object does not exist"
error_text invalid_specification = codes "invalid specification"
error_text no_specification = codes "no specification"
error_text invalid_state = codes "invalid state"
error_text attribute_not_supported = codes "attribute not supported"
error_text not_authenticated = codes "please login"
error_text already_authenticated = codes "already logged in"
error_text not_enough_privileges = codes "not enough privileges"
error_text no_packet_error = []

unfoldable pub format_packet_error : ProcHandler → PacketError → ProcHandler
unfolding output_prompt flush_stream_to_connector
format_packet_error h pe =
    let a = record h { command = ProcCommand.error } in
    let b = write a (output_prompt a true) in
    let c = write b (codes " NO ") in
    let d = write c (error_text pe) in
    let e = write d crlf in flush_stream_to_connector (write e (output_prompt e false))

unfoldable pub in_states : ProcState → List ProcState → Bool
in_states s [] = false
in_states s (x ∷ xs) = if rank s == rank x then true else in_states s xs

unfoldable pub check_connection_state : ProcHandler → ProcState → Bool
unfolding in_states
check_connection_state h state = in_states state h.current_state

abbrev pub erase_state : ProcState → List ProcState → List ProcState
erase_state s [] = []
erase_state s (x ∷ xs) = let rest = erase_state s xs in if rank s == rank x then rest else x ∷ rest

unfoldable pub update_states : SetOp → ProcState → List ProcState → List ProcState
unfolding in_states
update_states add s xs = if in_states s xs then xs else s ∷ xs
update_states delete s xs = erase_state s xs
update_states clear s xs = []

unfoldable pub update_connection_state : ProcHandler → SetOp → ProcState → ProcHandler
unfolding update_states
update_connection_state h op s = record h { current_state = update_states op s h.current_state }
