-- ===== src/Handler/Protocol/Session.antt =====
-- What a request makes the handler send, and what the read loop keeps.
use cci_daemon.Base.{
  ◌≡◌, ◌≢◌, inl, inr, refl, sym, ap, ap₂, ◌∙◌, Bool, true, false, [], ◌∷◌, ◌++◌, arith, Text, codes,
  Bool-cases, append_assoc, append-nil, pos,
}
use cci_daemon.Handler.State.{
  ProcCommand, PacketError, no_packet_error, authenticated, crlf, ProcHandler, error_text,
  output_prompt, flush_stream_to_connector, format_packet_error, check_connection_state,
}
use cci_daemon.Handler.Strings.{lcase}
use cci_daemon.Handler.Protocol.Perform.{login_map, ok_line, Refused, LoggedIn, perform-cases}
use cci_daemon.Handler.Protocol.{is_no_error, is_logout, perform, respond, bare_line, execute}

-- Between two requests nothing is left to send, and the commands are those of `map_commands`.
pub record Ready (h : ProcHandler) : Type 0 where
  pub command_map : h.command_map ≡ login_map
  pub not_logout : h.command ≢ ProcCommand.logout
  pub flushed : h.stream ≡ []

-- The line that `format_packet_error` sends.
abbrev pub error_line : Text → PacketError → Text
error_line tok pe = tok ++ 0 ∷ (codes " NO " ++ error_text pe ++ crlf)

pub format-sent :
    (h : ProcHandler) (pe : PacketError)
    → h.silent ≡ false
    → h.stream ≡ []
    → (format_packet_error h pe).sent ≡ h.sent ++ error_line h.token pe
unfolding format_packet_error
format-sent h pe s f = rw s (rw f (simp (append_assoc, append-nil)))

pub flush-sent :
    (h : ProcHandler) → h.silent ≡ false → (flush_stream_to_connector h).sent ≡ h.sent ++ h.stream
unfolding flush_stream_to_connector
flush-sent h s = rw s

pub not_logout_eq : (c : ProcCommand) → c ≢ ProcCommand.logout → is_logout c ≡ false
not_logout_eq c n = ground arith

-- `perform` never leaves the command `proc_logout`.
perform-not_logout :
    (h : ProcHandler) (r : Text) → Ready h → is_logout (perform h r).command ≡ false
perform-not_logout h r v = elim (perform-cases h r v.command_map) [
  | inl x ↦ ground (arith, x.command, v.not_logout)
  | inr x ↦ ground (arith, x.command)
]

pub flush-Ready :
    (a : ProcHandler)
    → a.command_map ≡ login_map
    → is_logout a.command ≡ false
    → Ready (flush_stream_to_connector a)
unfolding flush_stream_to_connector
flush-Ready a m l = elim (Bool-cases a.silent) [
  | inl e ↦ rw e (ground arith)
  | inr e ↦ rw e (ground arith)
]

pub format-Ready :
    (a : ProcHandler) (pe : PacketError)
    → a.command_map ≡ login_map
    → Ready (format_packet_error a pe)
unfolding format_packet_error
format-Ready a pe m = elim (Bool-cases a.silent) [
  | inl e ↦ rw e (ground arith)
  | inr e ↦ rw e (ground arith)
]

respond-Ready :
    (a : ProcHandler) (bare : Bool)
    → a.command_map ≡ login_map
    → is_logout a.command ≡ false
    → Ready (respond a bare).0 × ((respond a bare).1 ≡ pos 0)
unfolding respond
respond-Ready a true m l =
    (flush-Ready (record a { stream = a.stream ++ output_prompt a false }) m l, refl)
respond-Ready a false m l = rw l (elim (Bool-cases (is_no_error a.error_packet)) [
  | inl e ↦ rw e ((flush-Ready a m l, refl))
  | inr e ↦ rw e ((format-Ready a a.error_packet m, refl))
])

perform-map : (h : ProcHandler) (r : Text) → Ready h → (perform h r).command_map ≡ login_map
perform-map h r v = elim (perform-cases h r v.command_map) [
  | inl x ↦ x.keeps.command_map ∙ v.command_map
  | inr x ↦ x.keeps.command_map ∙ v.command_map
]

-- After any request the handler is ready again, and `process` goes on.
pub execute-Ready :
    (h : ProcHandler) (r : Text) → Ready h → Ready (execute h r).0 × ((execute h r).1 ≡ pos 0)
unfolding execute
execute-Ready h r v =
    respond-Ready (perform h r) (bare_line r) (perform-map h r v) (perform-not_logout h r v)

-- The answer to a request, and the connection state after it.
pub data Answers (h a : ProcHandler) : Type 0 where
  error_answer :
      (pe : PacketError)
      → pe ≢ no_packet_error
      → a.sent ≡ h.sent ++ error_line a.token pe
      → a.current_state ≡ h.current_state
      → Answers h a
  login_answer :
      check_connection_state h authenticated ≡ false
      → lcase a.command_str ≡ codes "login"
      → a.sent ≡ h.sent ++ ok_line a.token
      → a.current_state ≡ authenticated ∷ h.current_state
      → Answers h a

pub format-rest :
    (a : ProcHandler) (pe : PacketError)
    → ((format_packet_error a pe).token ≡ a.token)
      × ((format_packet_error a pe).current_state ≡ a.current_state)
      × ((format_packet_error a pe).silent ≡ a.silent)
unfolding format_packet_error
format-rest a pe = elim (Bool-cases a.silent) [
  | inl e ↦ rw e (ground arith)
  | inr e ↦ rw e (ground arith)
]

pub flush-rest :
    (a : ProcHandler)
    → ((flush_stream_to_connector a).token ≡ a.token)
      × ((flush_stream_to_connector a).command_str ≡ a.command_str)
      × ((flush_stream_to_connector a).current_state ≡ a.current_state)
      × ((flush_stream_to_connector a).silent ≡ a.silent)
unfolding flush_stream_to_connector
flush-rest a = elim (Bool-cases a.silent) [
  | inl e ↦ rw e (ground arith)
  | inr e ↦ rw e (ground arith)
]

module _ (h a : ProcHandler) (s : h.silent ≡ false) (f : h.stream ≡ []) where
  respond-Refused : is_logout a.command ≡ false → Refused h a → Answers h (respond a false).0
  unfolding respond
  respond-Refused l x =
      rw (l, is_error)
        (error_answer a.error_packet x.error
          (format-sent a a.error_packet (x.keeps.silent ∙ s) (x.stream ∙ f)
            ∙ ap₂ (λ (u t : Text). u ++ error_line t a.error_packet) x.keeps.sent (sym rest.0))
          (rest.1 ∙ x.current_state))
    where
      is_error : is_no_error a.error_packet ≡ false
      is_error = ground (arith, x.error)

      rest :
          ((format_packet_error a a.error_packet).token ≡ a.token)
          × ((format_packet_error a a.error_packet).current_state ≡ a.current_state)
          × ((format_packet_error a a.error_packet).silent ≡ a.silent)
      rest = format-rest a a.error_packet

  respond-in : is_logout a.command ≡ false → LoggedIn h a → Answers h (respond a false).0
  unfolding respond
  respond-in l x =
      rw (l, ok)
        (login_answer x.was_out (ap lcase rest.1 ∙ x.requested)
          (flush-sent a (x.keeps.silent ∙ s)
            ∙ ap₂ (λ (u t : Text). u ++ t) x.keeps.sent
                (x.stream ∙ ap₂ (λ (u t : Text). u ++ ok_line t) f (sym rest.0)))
          (rest.2 ∙ x.current_state))
    where
      ok : is_no_error a.error_packet ≡ true
      ok = ground (arith, x.error)

      rest :
          ((flush_stream_to_connector a).token ≡ a.token)
          × ((flush_stream_to_connector a).command_str ≡ a.command_str)
          × ((flush_stream_to_connector a).current_state ≡ a.current_state)
          × ((flush_stream_to_connector a).silent ≡ a.silent)
      rest = flush-rest a

-- A ready handler that is not silent answers every request, but those of two bytes with a line feed among them, with
-- one line: an error, and then the connection state stays, or the confirmation of a `login` that was asked for on a session
-- not yet authenticated, and then exactly that state is added. It is ready for the next request.
pub execute-Answers :
    (h : ProcHandler) (r : Text)
    → Ready h
    → h.silent ≡ false
    → bare_line r ≡ false
    → Answers h (execute h r).0 × Ready (execute h r).0
unfolding execute
execute-Answers h r v s b = (
  rw b (elim (perform-cases h r v.command_map) [
    | inl x ↦ respond-Refused h (perform h r) s v.flushed (perform-not_logout h r v) x
    | inr x ↦ respond-in h (perform h r) s v.flushed (perform-not_logout h r v) x
  ]),
  (execute-Ready h r v).0,
)
