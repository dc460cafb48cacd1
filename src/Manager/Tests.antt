-- ===== src/Manager/Tests.antt =====
-- Runs of the authentication manager.
use cci_daemon.Base.{
  ◌≡◌, ◌≢◌, refl, arith, Text, List, [], ◌∷◌, codes, pos, contains, contains-Lacks, map, length,
  ◌+◌, ◌<◌, true, false, some, sym, ◌∙◌, ap,
}
use cci_daemon.Handler.State.{unrecognized_command, in_states}
use cci_daemon.Handler.Strings.{lcase}
use cci_daemon.Handler.Protocol.{ctrl_c, ctrl_z, command, find_part, text_eq, or_empty}
use cci_daemon.Handler.Lifecycle.{thread_pool}
use cci_daemon.Handler.Lifecycle
use cci_daemon.Handler.Protocol.Session.{error_line}
use cci_daemon.Handler.Protocol.Reference.{split_word, line_answer, command_answer}
use cci_daemon.Handler.Protocol.Refine.{Represents}
use cci_daemon.Handler.Protocol.Lines.{IsLine, encoded}
use cci_daemon.Manager.State.{AuthMgrHandler, auth_mgr_handler, map_commands}
use cci_daemon.Manager.Protocol.{svc, parse_command}
use cci_daemon.Manager.Equivalence.{as_proc, NoLogin}
use cci_daemon.Manager.Named.{manager_answer, manager_answers, line_named}
use cci_daemon.Manager.Lines.{Served, svc-manager_answers}
use cci_daemon.Manager.Lifecycle.{Connection, new_connection, open_handler}

unfoldable opened : AuthMgrHandler
unfolding map_commands auth_mgr_handler
opened = map_commands (auth_mgr_handler (codes "host"))

opened-Represents : Represents (as_proc opened) (record { token = []; inside = false })
unfolding opened as_proc in_states
opened-Represents = record {
  ready = record { command_map = refl; not_logout = λ e. cc; flushed = refl };
  loud = refl;
  token = refl;
  inside = refl;
}

list_names : find_part command (parse_command opened (codes "a1 list\r\n")).1 ≡ some (codes "list")
unfolding split_word
list_names =
    line_named opened (codes "a1 list") (contains-Lacks b'\n' (codes "a1 list") refl) (omega arith)

list_unlike_login : lcase (codes "list") ≢ codes "login"
unfolding lcase
list_unlike_login e = let p : false ≡ true = ap (text_eq (codes "login")) e in cc p

list-NoLogin : NoLogin opened (codes "a1 list\r\n")
list-NoLogin name f e = list_unlike_login (ap lcase (ap or_empty (sym list_names ∙ f)) ∙ e)

-- A session in which `login` is asked for, and what the client reads.
abbrev session : List Text
session = codes "a1 LOGIN joe" ∷ codes "b2 list" ∷ []

session-replies :
    manager_answers (record { token = []; inside = false }) session
    ≡ (record { token = codes "b2"; inside = false }, error_line (codes "b2") unrecognized_command)
unfolding manager_answers manager_answer line_answer command_answer split_word lcase
session-replies = refl

session-IsLine :
    (s : Text)
    → contains s b'\n' ≡ false
    → contains s 0 ≡ false
    → contains s ctrl_c ≡ false
    → contains s ctrl_z ≡ false
    → length s + 2 < 64
    → IsLine 64 s
session-IsLine s f z c d w = record {
  no_feed = contains-Lacks b'\n' s f;
  no_nul = contains-Lacks 0 s z;
  quiet = (contains-Lacks ctrl_c s c, contains-Lacks ctrl_z s d);
  fits = w;
}

svc-manager_answers_example :
    Served opened
      (svc 5 opened 64 (map encoded session))
      (manager_answers (record { token = []; inside = false }) session)
svc-manager_answers_example =
    svc-manager_answers 5 opened (record { token = []; inside = false }) 64 session
      opened-Represents (omega arith)
      (
        session-IsLine (codes "a1 LOGIN joe") refl refl refl refl (omega arith),
        (session-IsLine (codes "b2 list") refl refl refl refl (omega arith), tt),
      )
      (omega arith)

abbrev started : Connection
started = (open_handler thread_pool (pos 0) true true (new_connection (codes "host"))).0

abbrev daemon_started : Lifecycle.Connection
daemon_started =
    (Lifecycle.open_handler thread_pool (pos 0) true true
      (Lifecycle.new_connection (codes "host"))).0
