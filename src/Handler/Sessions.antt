-- ===== src/Handler/Sessions.antt =====
-- A session of whole lines, run against the reference.
use cci_daemon.Base.{
  ◌≡◌, refl, arith, true, codes, ◌++◌, [], ◌∷◌, Text, contains, contains-Lacks, ◌+◌, ◌<◌, List, map,
  length, false,
}
use cci_daemon.Handler.State.{PacketError, unrecognized_command, already_authenticated, in_states}
use cci_daemon.Handler.Strings.{lcase}
use cci_daemon.Handler.Protocol.{ctrl_c, ctrl_z, svc}
use cci_daemon.Handler.Protocol.Perform.{ok_line}
use cci_daemon.Handler.Protocol.Session.{error_line}
use cci_daemon.Handler.Protocol.Reference.{split_word, command_answer, line_answer, lines_answer}
use cci_daemon.Handler.Protocol.Refine.{Represents}
use cci_daemon.Handler.Protocol.Lines.{IsLine, Served, encoded, svc-lines_answer}
use cci_daemon.Handler.Tests.{opened, opened-Ready, quiet}

opened-Represents : Represents opened (record { token = []; inside = false })
unfolding opened in_states
opened-Represents = record { ready = opened-Ready; loud = refl; token = refl; inside = refl }

-- A session with an error of each sort, and what the client reads.
abbrev session : List Text
session = codes "hello" ∷ codes "a1 LOGIN" ∷ [] ∷ codes "b2 login joe" ∷ codes "c3 list" ∷ []

abbrev replies : Text
replies =
    error_line [] PacketError.no_command
    ++ ok_line (codes "a1")
    ++ error_line (codes "b2") already_authenticated
    ++ error_line (codes "c3") unrecognized_command

session-replies :
    lines_answer (record { token = []; inside = false }) session
    ≡ (record { token = codes "c3"; inside = true }, replies)
unfolding lines_answer line_answer command_answer split_word lcase
session-replies = refl

session-IsLine :
    (s : Text)
    → contains s b'\n' ≡ false
    → contains s 0 ≡ false
    → contains s ctrl_c ≡ false
    → contains s ctrl_z ≡ false
    → length s + 2 < 64
    → IsLine 64 s
session-IsLine s f z c d w = record {
  no_feed = contains-Lacks b'\n' s f;
  no_nul = contains-Lacks 0 s z;
  quiet = quiet s c d;
  fits = w;
}

svc-lines_answer_example :
    Served opened
      (svc 9 opened 64 (map encoded session))
      (lines_answer (record { token = []; inside = false }) session)
svc-lines_answer_example =
    svc-lines_answer 9 opened (record { token = []; inside = false }) 64 session opened-Represents
      (omega arith)
      (
        session-IsLine (codes "hello") refl refl refl refl (omega arith),
        (
          session-IsLine (codes "a1 LOGIN") refl refl refl refl (omega arith),
          (
            session-IsLine [] refl refl refl refl (omega arith),
            (
              session-IsLine (codes "b2 login joe") refl refl refl refl (omega arith),
              (session-IsLine (codes "c3 list") refl refl refl refl (omega arith), tt),
            ),
          ),
        ),
      )
      (omega arith)
