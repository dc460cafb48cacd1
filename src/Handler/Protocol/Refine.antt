-- ===== src/Handler/Protocol/Refine.antt =====
-- The handler answers as the reference does.
use cci_daemon.Base.{
  ℕ, ◌+◌, ◌≡◌, ◌≢◌, ◌≤◌, ◌<◌, ◌⊎◌, inl, inr, refl, ap, ap₂, ◌∙◌, true, false, Option, none, some,
  List, [], ◌∷◌, ◌++◌, arith, ◌==◌, length, length-append, All-split, subst, Text, codes, Lacks,
  size_mod, Bool-cases, ==_iff, append_assoc, if◌then◌else◌,
}
use cci_daemon.Handler.State.{
  ProcCommand, no_packet_error, unrecognized_command, already_authenticated, authenticated, Action,
  on_login, ProcHandler, check_connection_state, update_connection_state, output_ok_response,
  in_states, flush_stream_to_connector, format_packet_error,
}
use cci_daemon.Handler.Strings.{lcase}
use cci_daemon.Handler.Protocol.Parse.{parse_command-bare, parse_command-payload}
use cci_daemon.Handler.Protocol.Perform.{login_map, ok_line}
use cci_daemon.Handler.Protocol.Session.{
  Ready, error_line, format-sent, format-rest, format-Ready, flush-sent, flush-rest, flush-Ready,
  not_logout_eq,
}
use cci_daemon.Handler.Protocol.Reference.{Client, split_word, command_name, command_answer}
use cci_daemon.Handler.Protocol.{
  max_token_length, command, Parts, find_part, fail, text_eq, or_empty, payload, login,
  find_command, dispatch, parse_command, perform_parts, respond, is_no_error,
}

-- How the text splits, as the reference computes it.
pub split-cases :
    (s : Text)
    → ((split_word s ≡ none) × Lacks b' ' s)
      ⊎ ((tok : Text) × (rest : Text) × (split_word s ≡ some (tok, rest))
          × (s ≡ tok ++ b' ' ∷ rest)
          × Lacks b' ' tok)
unfolding split_word
split-cases [] = inl (refl, tt)
split-cases (x ∷ xs) = elim (Bool-cases (x == b' ')) [
  | inl e ↦ inr ([], xs, rw e refl, ap (λ (c : ℕ). c ∷ xs) ((==_iff x b' ').0 e), tt)
  | inr n ↦ elim (split-cases xs) [
    | inl (e, l) ↦ inl (rw (n, e) refl, ((λ q. cc (n, (==_iff x b' ').1 q)), l))
    | inr (tok, rest, e, f, l) ↦
        inr (x ∷ tok, rest, rw (n, e) refl, ap (◌∷◌ x) f, ((λ q. cc (n, (==_iff x b' ').1 q)), l))
  ]
]

abbrev pub line_end : Text
line_end = b'\r' ∷ b'\n' ∷ []

-- The parsed handler, and parts that name the command.
unfoldable pub parsed : ProcHandler → Text → Text → ProcHandler
parsed h tok name = record h { token = tok; command_str = name; error_packet = no_packet_error }

pub parse_line :
    (h : ProcHandler) (tok rest : Text)
    → Lacks b' ' tok
    → length tok ≤ max_token_length
    → Lacks b'\n' rest
    → length rest + 3 < size_mod
    → (parts : Parts) × (parse_command h (tok ++ b' ' ∷ (rest ++ line_end))
        ≡ (parsed h tok (command_name rest), parts))
      × (find_part command parts ≡ some (command_name rest))
unfolding parsed
parse_line h tok rest t s l w = elim (split-cases rest) [
  | inl (e, k) ↦
      rw e (_, parse_command-bare h tok rest b'\r' t s k (λ q. omega arith) (omega arith), refl)
  | inr (name, body, e, f, k) ↦ rw e (
    _,
    ap (λ (u : Text). parse_command h (tok ++ b' ' ∷ (u ++ line_end))) f
        ∙ ap (λ (u : Text). parse_command h (tok ++ b' ' ∷ u))
            (append_assoc name (b' ' ∷ body) line_end)
        ∙ parse_command-payload h tok name body [] b'\r' t s k
            (All-split (λ x. x ≢ b'\n') name (b' ' ∷ body) (subst (Lacks b'\n') f l)).1.1
            (λ q. omega arith) (omega (arith, ap length f, length-append name (b' ' ∷ body))),
    refl,
  )
]

-- The handler stands for the reference's client.
pub record Represents (h : ProcHandler) (c : Client) : Type 0 where
  pub ready : Ready h
  pub loud : h.silent ≡ false
  pub token : h.token ≡ c.token
  pub inside : in_states authenticated h.current_state ≡ c.inside

-- What an answer leaves: the client's new state, and the text behind what was sent before.
abbrev pub Answered : ProcHandler → ProcHandler → Client × Text → Type 0
Answered h a r = Represents a r.0 × (a.sent ≡ h.sent ++ r.1)

-- A refused request is answered with its error, for the token of the handler.
pub respond_error :
    (h a : ProcHandler) (c : Client)
    → Represents a c
    → a.sent ≡ h.sent
    → a.error_packet ≢ no_packet_error
    → Answered h (respond a false).0 (c, error_line c.token a.error_packet)
unfolding respond
respond_error h a c r s n =
    rw (not_logout_eq a.command r.ready.not_logout, is_error)
      ((
        record {
          ready = format-Ready a a.error_packet r.ready.command_map;
          loud = rest.2 ∙ r.loud;
          token = rest.0 ∙ r.token;
          inside = ap (in_states authenticated) rest.1 ∙ r.inside;
        },
        format-sent a a.error_packet r.loud r.ready.flushed
            ∙ ap₂ (λ (u t : Text). u ++ error_line t a.error_packet) s r.token,
      ))
  where
    is_error : is_no_error a.error_packet ≡ false
    is_error = ground (arith, n)

    rest :
        ((format_packet_error a a.error_packet).token ≡ a.token)
        × ((format_packet_error a a.error_packet).current_state ≡ a.current_state)
        × ((format_packet_error a a.error_packet).silent ≡ a.silent)
    rest = format-rest a a.error_packet

-- A confirmed request sends what is in the stream.
pub respond_ok :
    (h a : ProcHandler) (c : Client) (text : Text)
    → a.command_map ≡ login_map
    → a.command ≢ ProcCommand.logout
    → a.silent ≡ false
    → a.token ≡ c.token
    → in_states authenticated a.current_state ≡ c.inside
    → a.sent ≡ h.sent
    → a.stream ≡ text
    → a.error_packet ≡ no_packet_error
    → Answered h (respond a false).0 (c, text)
unfolding respond
respond_ok h a c text m l q t i s f e =
    rw (not_logout_eq a.command l, ok)
      ((
        record {
          ready = flush-Ready a m (not_logout_eq a.command l);
          loud = rest.3 ∙ q;
          token = rest.0 ∙ t;
          inside = ap (in_states authenticated) rest.2 ∙ i;
        },
        flush-sent a q ∙ ap₂ (λ (u v : Text). u ++ v) s f,
      ))
  where
    ok : is_no_error a.error_packet ≡ true
    ok = ground (arith, e)

    rest :
        ((flush_stream_to_connector a).token ≡ a.token)
        × ((flush_stream_to_connector a).command_str ≡ a.command_str)
        × ((flush_stream_to_connector a).current_state ≡ a.current_state)
        × ((flush_stream_to_connector a).silent ≡ a.silent)
    rest = flush-rest a

pub find_known :
    (m : List (Text × Option Action)) (key : Text)
    → m ≡ login_map
    → find_command key m ≡ (if text_eq (codes "login") key then some (some on_login) else none)
find_known m key e = rw e refl

module _ (h : ProcHandler) (c : Client) (r : Represents h c) (tok name : Text) (parts : Parts) where
  login_answer :
      Answered h
        (respond (login (parsed h tok name) (or_empty (find_part payload parts))).0 false).0
        (if c.inside
          then (record c { token = tok }, error_line tok already_authenticated)
          else (record { token = tok; inside = true }, ok_line tok))
  unfolding login parsed check_connection_state update_connection_state output_ok_response in_states
  login_answer = elim (Bool-cases c.inside) [
    | inl e ↦
        rw (e, r.inside ∙ e)
          (respond_error h _ (record { token = tok; inside = true })
            (record {
              ready = record {
                command_map = r.ready.command_map;
                not_logout = λ q. cc;
                flushed = r.ready.flushed;
              };
              loud = r.loud;
              token = refl;
              inside = r.inside ∙ e;
            })
            refl (λ q. cc))
    | inr e ↦
        rw (e, r.inside ∙ e)
          (respond_ok h _ (record { token = tok; inside = true }) (ok_line tok) r.ready.command_map
            (λ q. cc) r.loud refl refl refl (ap (λ (u : Text). u ++ ok_line tok) r.ready.flushed)
            refl)
  ]

  unknown_answer :
      Answered h
        (respond (fail (parsed h tok name) unrecognized_command) false).0
        (record c { token = tok }, error_line tok unrecognized_command)
  unfolding parsed
  unknown_answer =
      respond_error h _ (record c { token = tok })
        (record {
          ready = record {
            command_map = r.ready.command_map;
            not_logout = r.ready.not_logout;
            flushed = r.ready.flushed;
          };
          loud = r.loud;
          token = refl;
          inside = r.inside;
        })
        refl (λ q. cc)

  pub named_answer :
      find_part command parts ≡ some name
      → Answered h
          (respond (perform_parts (parsed h tok name, parts)) false).0
          (command_answer c tok name)
  unfolding perform_parts dispatch command_answer parsed
  named_answer f =
      rw (f, find_known h.command_map (lcase name) r.ready.command_map)
        (elim (Bool-cases (text_eq (codes "login") (lcase name))) [
          | inl e ↦ rw e login_answer
          | inr e ↦ rw e unknown_answer
        ])
