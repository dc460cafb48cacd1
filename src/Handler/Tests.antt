-- ===== src/Handler/Tests.antt =====
-- Runs of the handler on short sessions.
use cci_daemon.Base.{
  ◌*◌, ◌≡◌, refl, arith, true, codes, none, ◌++◌, [], ◌∷◌, Text, contains, contains-Lacks, false,
}
use cci_daemon.Handler.State.{
  no_packet_error, already_authenticated, authenticated, ProcHandler, proc_handler, map_commands,
  check_connection_state, in_states, SetOp, update_connection_state,
}
use cci_daemon.Handler.Strings.{lcase}
use cci_daemon.Handler.Protocol.{ctrl_c, ctrl_z, process, svc, execute, fail, parse_command}
use cci_daemon.Handler.Protocol.Parse.{Reports, parse_command-Reports}
use cci_daemon.Handler.Protocol.Perform.{ok_line}
use cci_daemon.Handler.Protocol.Session.{Ready, Answers, execute-Answers, error_line}
use cci_daemon.Handler.Protocol.Quiet.{IsQuiet, svc_runs_on}
use cci_daemon.Handler.Protocol.Within.{Within}
use cci_daemon.Handler.Protocol.Bounds.{svc-Within}
use cci_daemon.Handler.Protocol.Fragments.{process_two}
use cci_daemon.Handler.Protocol.Login.{request, execute-login, execute-login_again}

unfoldable pub opened : ProcHandler
unfolding map_commands proc_handler
opened = map_commands (proc_handler (codes "host"))

pub opened-Ready : Ready opened
unfolding opened
opened-Ready = record { command_map = refl; not_logout = λ e. cc; flushed = refl }

-- The line "a1 login" with its line end.
abbrev line : Text
line = codes "a1 login\r\n"

-- `IsQuiet` on a given text, by running the searches.
pub quiet : (s : Text) → contains s ctrl_c ≡ false → contains s ctrl_z ≡ false → IsQuiet s
quiet s c z = (contains-Lacks ctrl_c s c, contains-Lacks ctrl_z s z)

process_two_example : process opened 16 (codes "abcdefgh" ∷ codes "ij x\n" ∷ []) ≡ (
  (execute (fail opened no_packet_error) (codes "abcdefghij x\nfgh")).0,
  (execute (fail opened no_packet_error) (codes "abcdefghij x\nfgh")).1,
  [],
)
process_two_example =
    process_two opened 16 (codes "abcdefgh") (codes "ij x") [] [] (λ e. cc) (omega arith)
      (omega arith) (omega arith) (contains-Lacks 0 (codes "abcdefgh") refl)
      (contains-Lacks 0 (codes "ij x\n") refl) (quiet (codes "abcdefgh") refl refl)
      (quiet (codes "ij x\n") refl refl) (contains-Lacks b'\n' (codes "abcdefgh") refl)
      (contains-Lacks b'\n' (codes "ij x") refl)

parse_command-Reports_example : Reports line (parse_command opened line).0.error_packet
parse_command-Reports_example = parse_command-Reports opened line (omega arith)

execute-login_example :
    ((execute opened (request (codes "a1") (codes "LOGIN"))).0.sent
      ≡ opened.sent ++ ok_line (codes "a1"))
    × (check_connection_state
          (execute opened (request (codes "a1") (codes "LOGIN"))).0
          authenticated
        ≡ true)
unfolding opened lcase check_connection_state in_states
execute-login_example =
    execute-login opened (codes "a1") (codes "LOGIN") opened-Ready refl
      (contains-Lacks b' ' (codes "a1") refl) (omega arith)
      (contains-Lacks b' ' (codes "LOGIN") refl) refl (omega arith) refl

-- The session that has logged in.
unfoldable pub inside : ProcHandler
unfolding opened update_connection_state
inside = update_connection_state opened SetOp.add authenticated

inside-Ready : Ready inside
unfolding inside opened update_connection_state
inside-Ready = record { command_map = refl; not_logout = λ e. cc; flushed = refl }

execute-login_again_example :
    ((execute inside (request (codes "b2") (codes "login"))).0.sent
      ≡ inside.sent ++ error_line (codes "b2") already_authenticated)
    × ((execute inside (request (codes "b2") (codes "login"))).0.current_state
        ≡ inside.current_state)
unfolding inside opened lcase check_connection_state in_states update_connection_state
execute-login_again_example =
    execute-login_again inside (codes "b2") (codes "login") inside-Ready refl
      (contains-Lacks b' ' (codes "b2") refl) (omega arith)
      (contains-Lacks b' ' (codes "login") refl) refl (omega arith) refl

execute-Answers_example : Answers opened (execute opened line).0 × Ready (execute opened line).0
unfolding opened
execute-Answers_example = execute-Answers opened line opened-Ready refl refl

svc_runs_on_example : (svc 1000 opened 64 (line ∷ [])).1 ≡ none
svc_runs_on_example =
    svc_runs_on 1000 opened 64 (line ∷ []) opened-Ready
      ((record { shorter = omega arith; quiet = quiet line refl refl }), tt)

svc-Within_example :
    Within opened (svc 3 opened 64 (line ∷ codes "x\n" ∷ (3 ∷ []) ∷ [])).0 (102 * 3)
    × ((svc 3 opened 64 (line ∷ codes "x\n" ∷ (3 ∷ []) ∷ [])).0.stream ≡ [])
unfolding opened
svc-Within_example = svc-Within 3 opened 64 (line ∷ codes "x\n" ∷ (3 ∷ []) ∷ []) (omega arith) refl
