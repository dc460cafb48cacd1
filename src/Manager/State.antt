-- ===== src/Manager/State.antt =====
-- The state of `auth_mgr_handler`, from cci_daemon/src/manager/include/auth_ace_manager.h, and its output,
-- from cci_daemon/src/manager/auth_mgr_handler.cpp. The errors, the parts of a packet and the sizes are those of
-- the dispatch daemon.
use cci_daemon.Base.{
  ℕ, take, Bool, true, false, Option, some, List, [], ◌∷◌, ◌++◌, if◌then◌else◌, Text, codes,
}
use cci_daemon.Handler.State.{PacketError, no_packet_error, Action, on_login, crlf, error_text}

pub data AuthCommand : Type 0 where
  login logout authenticate no_command error : AuthCommand

-- There is no silent mode, and no connection state.
pub record AuthMgrHandler : Type 0 where
  pub command_map : List (Text × Option Action)
  pub stream : Text
  pub sent : Text
  pub computer_name : Text
  pub token : Text
  pub command_str : Text
  pub command : AuthCommand
  pub error_packet : PacketError

-- The constructor, on what `gethostname` gives.
unfoldable pub auth_mgr_handler : Text → AuthMgrHandler
auth_mgr_handler hostname = record {
  command_map = [];
  stream = [];
  sent = [];
  computer_name = hostname;
  token = [];
  command_str = [];
  command = AuthCommand.no_command;
  error_packet = no_packet_error;
}

unfoldable pub map_commands : AuthMgrHandler → AuthMgrHandler
map_commands a = record a { command_map = (codes "login", some on_login) ∷ a.command_map }

unfoldable pub flush_stream_to_connector : AuthMgrHandler → AuthMgrHandler
flush_stream_to_connector a = record a { sent = a.sent ++ a.stream; stream = [] }

abbrev pub write : AuthMgrHandler → Text → AuthMgrHandler
write a text = record a { stream = a.stream ++ text }

unfoldable pub output_prompt : AuthMgrHandler → Bool → Text
output_prompt a with_token = if with_token then a.token ++ 0 ∷ [] else []

unfoldable pub output_boiler_plate : AuthMgrHandler → AuthMgrHandler
unfolding output_prompt flush_stream_to_connector
output_boiler_plate a =
    let b = write a (
      codes "* OK authentication manager speaking.... "
      ++ a.computer_name
      ++ codes " chromatic universe 2017 all rights reserved  ready") in
    let c = write b crlf in flush_stream_to_connector (write c (output_prompt c false))

unfoldable pub output_ok_response : AuthMgrHandler → Text → AuthMgrHandler
output_ok_response a ack = write a (a.token ++ codes " " ++ codes "OK " ++ ack ++ crlf)

unfoldable pub format_packet_error : AuthMgrHandler → PacketError → AuthMgrHandler
unfolding output_prompt flush_stream_to_connector
format_packet_error a pe =
    let b = record a { command = AuthCommand.error } in
    let c = write b (output_prompt b true) in
    let d = write c (codes " NO ") in
    let e = write d (error_text pe) in
    let f = write e crlf in flush_stream_to_connector (write f (output_prompt f false))

unfoldable pub stream_out : AuthMgrHandler → Text → AuthMgrHandler
stream_out a str = write a str

-- `stream_out` of a length.
unfoldable pub stream_out_front : AuthMgrHandler → Text → ℕ → AuthMgrHandler
stream_out_front a str len = write a (take len str)

-- `accepted` is how many bytes the socket takes at once.
unfoldable pub flush_binary_stream_to_connector : ℕ → AuthMgrHandler → Text → ℕ → AuthMgrHandler
flush_binary_stream_to_connector accepted a u_buffer dw_len = record a {
  sent = a.sent ++ take accepted (take dw_len u_buffer);
}

unfoldable pub flush_immediate : AuthMgrHandler → Text → AuthMgrHandler
unfolding flush_stream_to_connector
flush_immediate a atom = flush_stream_to_connector (write a atom)
