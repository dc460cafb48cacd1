-- ===== src/Manager/Agrees.antt =====
-- How `process` of the authentication manager and of the dispatch daemon agree.
use cci_daemon.Base.{
  ℕ, ◌≡◌, inl, inr, refl, sym, ap, ◌∙◌, Bool, true, false, Option, none, some, List, Text,
  Bool-cases, Option-cases, ℤ, pos, is_empty,
}
use cci_daemon.Handler.State.{ProcHandler, no_packet_error, Action, on_login}
use cci_daemon.Handler.Protocol.{
  command, Parts, find_part, text_eq, find_command, bare_line, is_no_error, is_minus_one,
}
use cci_daemon.Handler.Protocol
use cci_daemon.Handler.Protocol.Quiet.{fail-Ready}
use cci_daemon.Handler.Protocol.Session.{Ready, execute-Ready}
use cci_daemon.Handler.Protocol.Reading.{Reading, closed, ended, request, read}
use cci_daemon.Handler.Protocol.Reading
use cci_daemon.Manager.State.{AuthMgrHandler, flush_stream_to_connector, format_packet_error}
use cci_daemon.Manager.Protocol.{
  fail, parse_command, login, dispatch, perform_parts, perform, respond, execute, is_logout,
  process,
}
use cci_daemon.Manager.Equivalence.{parse_command-same}
use cci_daemon.Manager.Lines.{deliver, process-deliver}

dispatch-loud :
    (a : AuthMgrHandler) (parts : Parts) (o : Option (Option Action))
    → is_logout a.command ≡ false
    → is_logout (dispatch a parts o).command ≡ false
unfolding dispatch login flush_stream_to_connector
dispatch-loud a parts none l = l
dispatch-loud a parts (some none) l = l
dispatch-loud a parts (some (some on_login)) l = refl

perform_parts-loud :
    (a : AuthMgrHandler) (parts : Parts)
    → is_logout a.command ≡ false
    → is_logout (perform_parts (a, parts)).command ≡ false
unfolding perform_parts
perform_parts-loud a parts l = elim (Bool-cases (is_no_error a.error_packet)) [
  | inl e ↦ rw e (elim (Option-cases (find_part command parts)) [
    | inl f ↦ rw f l
    | inr (name, f) ↦ rw f (dispatch-loud a parts _ l)
  ])
  | inr e ↦ rw e l
]

perform-loud :
    (a : AuthMgrHandler) (text : Text)
    → is_logout a.command ≡ false
    → is_logout (perform a text).command ≡ false
unfolding perform
perform-loud a text l = elim (Bool-cases (is_empty text)) [
  | inl e ↦ rw e l
  | inr e ↦ rw e (
      perform_parts-loud (parse_command a text).0 (parse_command a text).1
        (ap is_logout (parse_command-same a text).3 ∙ l))
]

respond-zero :
    (a : AuthMgrHandler) (bare : Bool) → is_logout a.command ≡ false → (respond a bare).1 ≡ pos 0
unfolding respond
respond-zero a true l = refl
respond-zero a false l =
    rw l (elim (Bool-cases (is_no_error a.error_packet)) [ inl e ↦ rw e refl | inr e ↦ rw e refl ])

execute-zero :
    (a : AuthMgrHandler) (text : Text) → is_logout a.command ≡ false → (execute a text).1 ≡ pos 0
unfolding execute
execute-zero a text l = respond-zero (perform a text) (bare_line text) (perform-loud a text l)

respond-loud :
    (a : AuthMgrHandler) (bare : Bool)
    → is_logout a.command ≡ false
    → is_logout (respond a bare).0.command ≡ false
unfolding respond flush_stream_to_connector format_packet_error
respond-loud a true l = l
respond-loud a false l =
    rw l (elim (Bool-cases (is_no_error a.error_packet)) [ inl e ↦ rw e l | inr e ↦ rw e refl ])

execute-loud :
    (a : AuthMgrHandler) (text : Text)
    → is_logout a.command ≡ false
    → is_logout (execute a text).0.command ≡ false
unfolding execute
execute-loud a text l = respond-loud (perform a text) (bare_line text) (perform-loud a text l)

-- The same result and the same input left, and two handlers that go on alike.
abbrev pub Agrees : AuthMgrHandler × ℤ × List Text → ProcHandler × ℤ × List Text → Type 0
Agrees p q = (p.1 ≡ q.1) × (p.2 ≡ q.2) × (is_logout p.0.command ≡ false) × Ready q.0

deliver-Agrees :
    (a : AuthMgrHandler) (h : ProcHandler) (o : Reading)
    → is_logout a.command ≡ false
    → Ready h
    → Agrees (deliver a o) (Reading.deliver h o)
deliver-Agrees a h (closed rest) l v = (refl, refl, l, v)
deliver-Agrees a h (ended rest) l v = (refl, refl, l, v)
deliver-Agrees a h (request text rest) l v =
    let (w, e) = execute-Ready h text v in
    (execute-zero a text l ∙ sym e, refl, execute-loud a text l, w)

pub process-Agrees :
    (a : AuthMgrHandler) (h : ProcHandler) (n : ℕ) (chunks : List Text)
    → is_logout a.command ≡ false
    → Ready h
    → Agrees (process a n chunks) (Protocol.process h n chunks)
process-Agrees a h n chunks l v =
    rw (process-deliver a n chunks, Reading.process-deliver h n chunks)
      (deliver-Agrees (fail a no_packet_error) (Protocol.fail h no_packet_error) (read n chunks) l
        (fail-Ready h no_packet_error v))
