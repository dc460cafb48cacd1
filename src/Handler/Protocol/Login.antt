-- ===== src/Handler/Protocol/Login.antt =====
-- The answer to `token login`, in any case of letters.
use cci_daemon.Base.{
  ◌+◌, ◌≡◌, ◌≤◌, ◌<◌, refl, ap, ◌∙◌, Bool, true, false, Option, some, List, [], ◌∷◌, ◌++◌, arith,
  length, length-append, ◌==◌, ◌&&◌, find, Text, codes, Lacks, size_mod,
}
use cci_daemon.Handler.State.{
  no_packet_error, already_authenticated, authenticated, Action, on_login, ProcHandler,
  check_connection_state, update_connection_state, output_ok_response, in_states,
}
use cci_daemon.Handler.Strings.{lcase}
use cci_daemon.Handler.Protocol.Parse.{parse_command-bare}
use cci_daemon.Handler.Protocol.Perform.{login_map, ok_line}
use cci_daemon.Handler.Protocol.Session.{
  Ready, error_line, format-sent, format-rest, flush-sent, flush-rest,
}
use cci_daemon.Handler.Protocol.{
  max_token_length, login, find_command, dispatch, parse_command, perform_parts, perform, found,
  respond, bare_line, execute,
}

find_login :
    (m : List (Text × Option Action)) (key : Text)
    → m ≡ login_map
    → key ≡ codes "login"
    → find_command key m ≡ some (some on_login)
find_login m key e k = rw (e, k)

-- A request with no payload, as a client sends it.
abbrev pub request : Text → Text → Text
request tok cmd = tok ++ b' ' ∷ (cmd ++ b'\r' ∷ b'\n' ∷ [])

pub perform_nonempty :
    (h : ProcHandler) (tok rest : Text)
    → perform h (tok ++ b' ' ∷ rest) ≡ perform_parts (parse_command h (tok ++ b' ' ∷ rest))
unfolding perform
perform_nonempty h [] rest = refl
perform_nonempty h (x ∷ xs) rest = refl

module _ (h : ProcHandler) (tok cmd : Text) (v : Ready h) (loud : h.silent ≡ false)
    (t : Lacks b' ' tok) (short : length tok ≤ max_token_length) (c : Lacks b' ' cmd)
    (is_login : lcase cmd ≡ codes "login") (w : length cmd + 2 < size_mod) where
  parsed : ProcHandler
  parsed = record h { token = tok; command_str = cmd; error_packet = no_packet_error }

  perform-login : perform h (request tok cmd) ≡ (login parsed []).0
  unfolding perform_parts dispatch parsed
  perform-login =
      perform_nonempty h tok (cmd ++ b'\r' ∷ b'\n' ∷ [])
      ∙ ap perform_parts (parse_command-bare h tok cmd b'\r' t short c (λ e. omega arith) w)
      ∙ rw (find_login h.command_map (lcase cmd) v.command_map is_login)

  not_bare : bare_line (request tok cmd) ≡ false
  not_bare = rw long (and_false (found (find (codes "\n") (request tok cmd))))
    where
      long : (length (request tok cmd) == 2) ≡ false
      long = ground (
        arith,
        length-append tok (b' ' ∷ (cmd ++ b'\r' ∷ b'\n' ∷ [])),
        length-append cmd (b'\r' ∷ b'\n' ∷ []),
      )

      and_false : (b : Bool) → (b && false) ≡ false
      and_false b = ground arith

  -- On a ready handler that is not silent and not authenticated, a request of a token of at most 10 bytes, a
  -- space and `login` in any case of letters is confirmed, and the session is authenticated; token and
  -- command have no space.
  pub execute-login :
      check_connection_state h authenticated ≡ false
      → let a = (execute h (request tok cmd)).0 in
        (a.sent ≡ h.sent ++ ok_line tok) × (check_connection_state a authenticated ≡ true)
  unfolding execute respond parsed login check_connection_state update_connection_state
      output_ok_response in_states
  execute-login out =
      rw (not_bare, perform-login, out)
        ((
          flush-sent _ loud ∙ ap (λ (u : Text). h.sent ++ (u ++ ok_line tok)) v.flushed,
          ap (in_states authenticated) (flush-rest _).2,
        ))

  -- On a ready handler that is not silent and is authenticated, a request of a token of at most 10 bytes, a
  -- space and `login` in any case of letters, neither with a space in it, is answered with the error
  -- `peAlreadyAuthenticated`, and the connection state stays as it was.
  pub execute-login_again :
      check_connection_state h authenticated ≡ true
      → let a = (execute h (request tok cmd)).0 in
        (a.sent ≡ h.sent ++ error_line tok already_authenticated)
        × (a.current_state ≡ h.current_state)
  unfolding execute respond parsed login check_connection_state
  execute-login_again there =
      rw (not_bare, perform-login, there)
        ((
          format-sent _ already_authenticated loud v.flushed,
          (format-rest _ already_authenticated).1,
        ))
