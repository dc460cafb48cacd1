-- ===== src/Handler/Protocol/Bounds.antt =====
-- What any input can do to a handler: bounds on its token and its answer, and its connection state.
use cci_daemon.Base.{
  ℕ, zero, suc, ◌*◌, ◌+◌, ◌≤◌, ◌≡◌, refl, inl, inr, sym, ap, ◌∙◌, arith, Bool, true, false, Option,
  none, some, List, [], ◌∷◌, ◌++◌, length, length-append, Text, codes, ltb, Bool-cases,
  Option-cases, is_empty, find_first_of, substr, ℤ, replicate,
}
use cci_daemon.Handler.State.{
  crlf, ProcHandler, PacketError, no_packet_error, error_text, flush_stream_to_connector, write,
  Action, on_login, output_prompt, output_ok_response, update_connection_state, update_states,
  check_connection_state, in_states, authenticated, ProcCommand, format_packet_error,
}
use cci_daemon.Handler.Protocol.{
  max_token_length, Parts, fail, space, parse_rest, parse_command, login, dispatch, is_no_error,
  perform_parts, perform, is_logout, respond, bare_line, execute, interrupted, incomplete, judge,
  process_loop, process, svc, is_minus_one, find_part, command,
}
use cci_daemon.Handler.Protocol.Within.{
  Within, same-Within, error_text_short, edited-Within, flush-Within, flush-stream, write-Within,
  unfailed-Within, wider-Within, failed-Within, called-Within, both-Within,
}

parse_rest-Within :
    (h g : ProcHandler) (str : Text) (parts : Parts)
    → ((name : Text) (e : PacketError)
        → Within h (record g { command_str = name; error_packet = e }) 0)
    → Within h (parse_rest g str parts).0 0
unfolding parse_rest
parse_rest-Within h g str parts w = elim (Bool-cases (is_empty str)) [
  | inl e ↦ rw e (w _ _)
  | inr e ↦ rw e (elim (Option-cases (find_first_of space str)) [
    | inl q ↦ rw q (w _ _)
    | inr (idx, q) ↦ rw q (w _ _)
  ])
]

parse_command-Within :
    (h : ProcHandler) (packet : Text)
    → length h.token ≤ max_token_length
    → Within h (parse_command h packet).0 0
unfolding parse_command
parse_command-Within h packet s = elim (Bool-cases (is_empty packet)) [
  | inl e ↦ rw e (edited-Within h _ _ _ _ s)
  | inr e ↦ rw e (elim (Option-cases (find_first_of space packet)) [
    | inl q ↦ rw q (edited-Within h _ _ _ _ s)
    | inr (idx, q) ↦ rw q (elim (Bool-cases (ltb max_token_length (length (substr packet 0 idx)))) [
      | inl l ↦ rw l (edited-Within h _ _ _ _ s)
      | inr l ↦ rw l (
          parse_rest-Within h (record h { token = substr packet 0 idx }) _ _
            (λ name err. edited-Within h _ name _ err (ground arith)))
    ])
  ])
]

ok_length :
    (tok ack : Text)
    → length tok ≤ 10
    → length (tok ++ codes " " ++ codes "OK " ++ ack ++ crlf) ≤ 16 + length ack
ok_length tok ack l = omega (
  arith,
  length-append (tok ++ codes " " ++ codes "OK " ++ ack) crlf,
  length-append (tok ++ codes " " ++ codes "OK ") ack,
  length-append (tok ++ codes " ") (codes "OK "),
  length-append tok (codes " "),
)

login-Within :
    (h g : ProcHandler) (params : Text)
    → Within h g 0
    → g.current_state ≡ h.current_state
    → Within h (login g params).0 31
unfolding login check_connection_state update_connection_state update_states output_ok_response
login-Within h g params w e = elim (Bool-cases (in_states authenticated g.current_state)) [
  | inl q ↦
      rw q (wider-Within h _ 0 31 (failed-Within h _ 0 _ (called-Within h g 0 _ w)) (omega arith))
  | inr q ↦ rw q (record {
    output = omega (
      arith,
      w.output,
      ok_length g.token (codes "login completed") w.short,
      length-append g.stream
          (g.token ++ codes " " ++ codes "OK " ++ codes "login completed" ++ crlf),
    );
    short = w.short;
    command_map = w.command_map;
    computer_name = w.computer_name;
    silent = w.silent;
    states = inr (ap (in_states authenticated) (sym e) ∙ q, ap (◌∷◌ authenticated) e);
  })
]

no_default :
    (h g : ProcHandler)
    → Within h g 0
    → Within h
        (flush_stream_to_connector (
          write
            (write g (output_prompt g false))
            (codes "NO no default action for this keyword" ++ crlf)))
        40
unfolding output_prompt
no_default h g w = flush-Within h _ 40 (
    wider-Within h _ (0 + 0 + 39) 40
      (write-Within h _ (0 + 0) 39 _ (write-Within h g 0 0 _ w (omega arith)) (omega arith))
      (omega arith))

dispatch-Within :
    (h g : ProcHandler) (parts : Parts) (found : Option (Option Action))
    → Within h g 0
    → g.current_state ≡ h.current_state
    → Within h (dispatch g parts found) 40
unfolding dispatch
dispatch-Within h g parts none w e = wider-Within h _ 0 40 (failed-Within h g 0 _ w) (omega arith)
dispatch-Within h g parts (some none) w e = no_default h g w
dispatch-Within h g parts (some (some on_login)) w e =
    wider-Within h _ 31 40 (login-Within h g _ w e) (omega arith)

parse_rest-states :
    (g : ProcHandler) (str : Text) (parts : Parts)
    → (parse_rest g str parts).0.current_state ≡ g.current_state
unfolding parse_rest
parse_rest-states g str parts = elim (Bool-cases (is_empty str)) [
  | inl e ↦ rw e refl
  | inr e ↦ rw e (elim (Option-cases (find_first_of space str)) [
    | inl q ↦ rw q refl
    | inr (idx, q) ↦ rw q refl
  ])
]

parse_command-states :
    (h : ProcHandler) (packet : Text) → (parse_command h packet).0.current_state ≡ h.current_state
unfolding parse_command
parse_command-states h packet = elim (Bool-cases (is_empty packet)) [
  | inl e ↦ rw e refl
  | inr e ↦ rw e (elim (Option-cases (find_first_of space packet)) [
    | inl q ↦ rw q refl
    | inr (idx, q) ↦ rw q (elim (Bool-cases (ltb max_token_length (length (substr packet 0 idx)))) [
      | inl l ↦ rw l refl
      | inr l ↦ rw l (parse_rest-states (record h { token = substr packet 0 idx }) _ _)
    ])
  ])
]

perform_parts-Within :
    (h g : ProcHandler) (parts : Parts)
    → Within h g 0
    → g.current_state ≡ h.current_state
    → Within h (perform_parts (g, parts)) 40
unfolding perform_parts
perform_parts-Within h g parts w e = elim (Bool-cases (is_no_error g.error_packet)) [
  | inl q ↦ rw q (elim (Option-cases (find_part command parts)) [
    | inl f ↦ rw f (wider-Within h g 0 40 w (omega arith))
    | inr (name, f) ↦ rw f (dispatch-Within h g parts _ w e)
  ])
  | inr q ↦ rw q (wider-Within h g 0 40 w (omega arith))
]

perform-Within :
    (h : ProcHandler) (str : Text) → length h.token ≤ max_token_length → Within h (perform h str) 40
unfolding perform
perform-Within h str s = elim (Bool-cases (is_empty str)) [
  | inl e ↦ rw e (failed-Within h h 40 _ (same-Within h 40 s))
  | inr e ↦ rw e (
      perform_parts-Within h (parse_command h str).0 (parse_command h str).1
        (parse_command-Within h str s) (parse_command-states h str))
]

format-Within :
    (h g : ProcHandler) (e : PacketError)
    → Within h g 40
    → Within h (format_packet_error g e) 102 × ((format_packet_error g e).stream ≡ [])
unfolding format_packet_error output_prompt
format-Within h g e w =
    let a = called-Within h g 40 ProcCommand.error w in
    let b =
      write-Within h _ 40 11 (g.token ++ 0 ∷ []) a
        (omega (arith, w.short, length-append g.token (0 ∷ []))) in
    let c = write-Within h _ (40 + 11) 4 (codes " NO ") b (omega arith) in
    let d = write-Within h _ (40 + 11 + 4) 45 (error_text e) c (error_text_short e) in
    let f = write-Within h _ (40 + 11 + 4 + 45) 2 crlf d (omega arith) in
    let k = write-Within h _ (40 + 11 + 4 + 45 + 2) 0 [] f (omega arith) in
    (
      flush-Within h _ 102 (wider-Within h _ (40 + 11 + 4 + 45 + 2 + 0) 102 k (omega arith)),
      flush-stream _,
    )

respond-Within :
    (h g : ProcHandler) (bare : Bool)
    → Within h g 40
    → Within h (respond g bare).0 102 × ((respond g bare).0.stream ≡ [])
unfolding respond output_prompt
respond-Within h g true w = (
  flush-Within h _ 102
      (wider-Within h _ (40 + 0) 102 (write-Within h g 40 0 [] w (omega arith)) (omega arith)),
  flush-stream _,
)
respond-Within h g false w = elim (Bool-cases (is_logout g.command)) [
  | inl l ↦ rw l (flush-Within h g 102 (wider-Within h g 40 102 w (omega arith)), flush-stream g)
  | inr l ↦ rw l (elim (Bool-cases (is_no_error g.error_packet)) [
    | inl q ↦ rw q (flush-Within h g 102 (wider-Within h g 40 102 w (omega arith)), flush-stream g)
    | inr q ↦ rw q (format-Within h g g.error_packet w)
  ])
]

-- The read loop executes one request at most.
judge-Within :
    (h : ProcHandler) (request : Text) (chunks : List Text) (more : ProcHandler × ℤ × List Text)
    → length h.token ≤ max_token_length
    → h.stream ≡ []
    → Within h more.0 102 × (more.0.stream ≡ [])
    → Within h (judge h request chunks more).0 102 × ((judge h request chunks more).0.stream ≡ [])
unfolding judge execute
judge-Within h request chunks more s f m = elim (Bool-cases (interrupted request)) [
  | inl e ↦ rw e (same-Within h 102 s, f)
  | inr e ↦ rw e (elim (Bool-cases (incomplete request)) [
    | inl q ↦ rw q m
    | inr q ↦
        rw q (respond-Within h (perform h request) (bare_line request) (perform-Within h request s))
  ])
]

process_loop-Within :
    (chunks : List Text) (h : ProcHandler) (rdbuf ostr : Text)
    → length h.token ≤ max_token_length
    → h.stream ≡ []
    → Within h (process_loop h rdbuf ostr chunks).0 102
      × ((process_loop h rdbuf ostr chunks).0.stream ≡ [])
unfolding process_loop
process_loop-Within [] h rdbuf ostr s f = (same-Within h 102 s, f)
process_loop-Within ([] ∷ chunks) h rdbuf ostr s f = (same-Within h 102 s, f)
process_loop-Within ((b ∷ bs) ∷ chunks) h rdbuf ostr s f =
    judge-Within h _ chunks _ s f (process_loop-Within chunks h _ _ s f)

process-Within :
    (h : ProcHandler) (rdbuf_len : ℕ) (chunks : List Text)
    → length h.token ≤ max_token_length
    → h.stream ≡ []
    → Within h (process h rdbuf_len chunks).0 102 × ((process h rdbuf_len chunks).0.stream ≡ [])
unfolding process
process-Within h rdbuf_len chunks s f =
    let (w, e) =
      process_loop-Within chunks (fail h no_packet_error) (replicate rdbuf_len 0) [] s f in
    (unfailed-Within h _ 102 no_packet_error w, e)

-- Whatever the peer sends to a connection's thread, Ctrl-C and Ctrl-Z included, and however it is cut into reads: from a
-- handler with a token of at most 10 bytes and nothing left to send, after any number of rounds the token still has
-- at most 10 bytes, nothing is left to send, at most 102 bytes were sent for each round, the command map, the
-- computer's name and `silent` are as they were, and so is the connection state, or `authenticated` alone was added to one
-- that did not have it.
pub svc-Within :
    (rounds : ℕ) (h : ProcHandler) (rdbuf_len : ℕ) (chunks : List Text)
    → length h.token ≤ max_token_length
    → h.stream ≡ []
    → Within h (svc rounds h rdbuf_len chunks).0 (102 * rounds)
      × ((svc rounds h rdbuf_len chunks).0.stream ≡ [])
unfolding svc
svc-Within zero h rdbuf_len chunks s f = (same-Within h (102 * 0) s, f)
svc-Within (suc rounds) h rdbuf_len chunks s f =
    let (w, e) = process-Within h rdbuf_len chunks s f in
    let (v, d) =
      svc-Within rounds (process h rdbuf_len chunks).0 rdbuf_len (process h rdbuf_len chunks).2
        w.short e in
    elim (Bool-cases (is_minus_one (process h rdbuf_len chunks).1)) [
      | inl q ↦ rw q (wider-Within h _ 102 (102 * suc rounds) w (omega arith), e)
      | inr q ↦ rw q (
        wider-Within h _ (102 + 102 * rounds) (102 * suc rounds)
            (both-Within h _ _ 102 (102 * rounds) w v) (omega arith),
        d,
      )
    ]
