-- ===== src/Handler/Protocol/Within.antt =====
-- How far a handler can be from an earlier one, and what its output functions add to that.
use cci_daemon.Base.{
  ℕ, ◌+◌, ◌≤◌, ◌≡◌, ◌⊎◌, refl, inl, inr, sym, ap, ◌∙◌, arith, Bool, true, false, [], ◌∷◌, ◌++◌,
  if◌then◌else◌, length, length-append, Text, Bool-cases,
}
use cci_daemon.Handler.State.{
  ProcHandler, PacketError, error_text, flush_stream_to_connector, write, in_states, authenticated,
  ProcCommand,
}
use cci_daemon.Handler.Protocol.{max_token_length, fail}

-- From one handler to a later one: at most `n` bytes more to send, and what else may change.
pub record Within (h g : ProcHandler) (n : ℕ) : Type 0 where
  pub output : length g.sent + length g.stream ≤ length h.sent + length h.stream + n
  pub short : length g.token ≤ max_token_length
  pub command_map : g.command_map ≡ h.command_map
  pub computer_name : g.computer_name ≡ h.computer_name
  pub silent : g.silent ≡ h.silent
  pub states :
      (g.current_state ≡ h.current_state)
      ⊎ ((in_states authenticated h.current_state ≡ false)
          × (g.current_state ≡ authenticated ∷ h.current_state))

pub same-Within : (h : ProcHandler) (n : ℕ) → length h.token ≤ max_token_length → Within h h n
same-Within h n s = record {
  output = omega arith;
  short = s;
  command_map = refl;
  computer_name = refl;
  silent = refl;
  states = inl refl;
}

pub error_text_short : (e : PacketError) → length (error_text e) ≤ 45
error_text_short PacketError.no_token = omega arith
error_text_short PacketError.token_too_long = omega arith
error_text_short PacketError.no_command = omega arith
error_text_short PacketError.command_too_long = omega arith
error_text_short PacketError.too_many_parameters = omega arith
error_text_short PacketError.invalid_payload = omega arith
error_text_short PacketError.invalid_syntax = omega arith
error_text_short PacketError.unrecognized_command = omega arith
error_text_short PacketError.select_state = omega arith
error_text_short PacketError.too_few_parameters = omega arith
error_text_short PacketError.no_parameters_expected_got_some = omega arith
error_text_short PacketError.parameters_expected_got_none = omega arith
error_text_short PacketError.failure = omega arith
error_text_short PacketError.invalid_object = omega arith
error_text_short PacketError.invalid_specification = omega arith
error_text_short PacketError.no_specification = omega arith
error_text_short PacketError.invalid_state = omega arith
error_text_short PacketError.attribute_not_supported = omega arith
error_text_short PacketError.not_authenticated = omega arith
error_text_short PacketError.already_authenticated = omega arith
error_text_short PacketError.not_enough_privileges = omega arith
error_text_short PacketError.no_packet_error = omega arith

-- The fields that the parts of a request go to.
pub edited-Within :
    (h : ProcHandler) (tok name : Text) (which : ProcCommand) (e : PacketError)
    → length tok ≤ max_token_length
    → Within h (record h { token = tok; command_str = name; command = which; error_packet = e }) 0
edited-Within h tok name which e s = record {
  output = omega arith;
  short = s;
  command_map = refl;
  computer_name = refl;
  silent = refl;
  states = inl refl;
}

-- The output alone is another.
pub resent-Within :
    (h g : ProcHandler) (n m : ℕ) (sent stream : Text)
    → Within h g n
    → length sent + length stream ≤ length h.sent + length h.stream + m
    → Within h (record g { sent = sent; stream = stream }) m
resent-Within h g n m sent stream w l = record {
  output = l;
  short = w.short;
  command_map = w.command_map;
  computer_name = w.computer_name;
  silent = w.silent;
  states = w.states;
}

pub flush-Within :
    (h g : ProcHandler) (n : ℕ) → Within h g n → Within h (flush_stream_to_connector g) n
unfolding flush_stream_to_connector
flush-Within h g n w = go g.silent
  where
    go :
        (b : Bool)
        → Within h
            (if b
              then record g { stream = [] }
              else record g { sent = g.sent ++ g.stream; stream = [] })
            n
    go true = resent-Within h g n n g.sent [] w (omega (arith, w.output))
    go false =
        resent-Within h g n n (g.sent ++ g.stream) [] w
          (omega (arith, w.output, length-append g.sent g.stream))

pub flush-stream : (g : ProcHandler) → (flush_stream_to_connector g).stream ≡ []
unfolding flush_stream_to_connector
flush-stream g = elim (Bool-cases g.silent) [ inl e ↦ rw e refl | inr e ↦ rw e refl ]

pub write-Within :
    (h g : ProcHandler) (n m : ℕ) (text : Text)
    → Within h g n
    → length text ≤ m
    → Within h (write g text) (n + m)
write-Within h g n m text w l =
    resent-Within h g n (n + m) g.sent (g.stream ++ text) w
      (omega (arith, w.output, length-append g.stream text))

pub unfailed-Within :
    (h g : ProcHandler) (n : ℕ) (e : PacketError) → Within (fail h e) g n → Within h g n
unfailed-Within h g n e w = record {
  output = w.output;
  short = w.short;
  command_map = w.command_map;
  computer_name = w.computer_name;
  silent = w.silent;
  states = w.states;
}

-- More is allowed.
pub wider-Within : (h g : ProcHandler) (n m : ℕ) → Within h g n → n ≤ m → Within h g m
wider-Within h g n m w l = resent-Within h g n m g.sent g.stream w (omega (arith, w.output))

pub failed-Within :
    (h g : ProcHandler) (n : ℕ) (e : PacketError) → Within h g n → Within h (fail g e) n
failed-Within h g n e w = record {
  output = w.output;
  short = w.short;
  command_map = w.command_map;
  computer_name = w.computer_name;
  silent = w.silent;
  states = w.states;
}

pub called-Within :
    (h g : ProcHandler) (n : ℕ) (c : ProcCommand)
    → Within h g n
    → Within h (record g { command = c }) n
called-Within h g n c w = record {
  output = w.output;
  short = w.short;
  command_map = w.command_map;
  computer_name = w.computer_name;
  silent = w.silent;
  states = w.states;
}

pub both-Within : (h g k : ProcHandler) (n m : ℕ) → Within h g n → Within g k m → Within h k (n + m)
unfolding in_states
both-Within h g k n m v w = record {
  output = omega (arith, v.output, w.output);
  short = w.short;
  command_map = w.command_map ∙ v.command_map;
  computer_name = w.computer_name ∙ v.computer_name;
  silent = w.silent ∙ v.silent;
  states = elim v.states [
    | inl e ↦ elim w.states [
      | inl f ↦ inl (f ∙ e)
      | inr (q, f) ↦ inr (ap (in_states authenticated) (sym e) ∙ q, f ∙ ap (◌∷◌ authenticated) e)
    ]
    | inr (q, e) ↦ elim w.states [
      | inl f ↦ inr (q, f ∙ e)
      | inr (r, f) ↦
          let absurdly : true ≡ false = sym (ap (in_states authenticated) e) ∙ r in absurd (cc)
    ]
  ];
}
