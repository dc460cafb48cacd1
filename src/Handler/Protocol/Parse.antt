-- ===== src/Handler/Protocol/Parse.antt =====
-- What `parse_command` makes of a well-formed request, and when it refuses one.
use cci_daemon.Base.{
  first_char, drop_past, ℕ, ◌+◌, ◌≤◌, ◌<◌, ◌≡◌, ◌≢◌, refl, ap, ◌∙◌, true, false, none, some, [],
  ◌∷◌, ◌++◌, arith, ltb, length, is_empty, take_all, take-append, All-append, length-append, Text,
  Lacks, find_char-append, find_first_of, find_first_of-find_char, find_char-Lacks, size_mod, npos,
  le-npos, Bool-cases, Option-cases, inl, inr,
}
use cci_daemon.Handler.Strings.Laws.{chomp_drops, rtrimlast_drops}
use cci_daemon.Handler.State.{
  ProcHandler, PacketError, token_too_long, invalid_syntax, no_packet_error,
}
use cci_daemon.Handler.Protocol.{
  token, command, payload, Parts, fail, space, max_token_length, parse_rest, parse_command,
}

find_space : (s t : Text) → Lacks b' ' s → find_first_of space (s ++ b' ' ∷ t) ≡ some (length s)
find_space s t h = rw (find_first_of-find_char b' ' (s ++ b' ' ∷ t)) (find_char-append b' ' s t h)

pub find_space-none : (s : Text) → Lacks b' ' s → find_first_of space s ≡ none
find_space-none s h = rw (find_first_of-find_char b' ' s) (find_char-Lacks b' ' s h)

-- The parts behind the token.
module _ (h : ProcHandler) (parts : Parts) where
  is_empty_append : (s t : Text) (c : ℕ) → is_empty (s ++ c ∷ t) ≡ false
  is_empty_append [] t c = refl
  is_empty_append (x ∷ xs) t c = refl

  parse_rest_bare :
      (cmd : Text) (c : ℕ)
      → Lacks b' ' cmd
      → c ≢ b' '
      → length cmd + 1 < size_mod
      → parse_rest h (cmd ++ c ∷ b'\n' ∷ []) parts ≡ (
        record h { command_str = cmd; error_packet = no_packet_error },
        parts ++ (command, cmd) ∷ [],
      )
  unfolding parse_rest
  parse_rest_bare cmd c k n w =
      rw
        (
          is_empty_append cmd (b'\n' ∷ []) c,
          find_space-none (cmd ++ c ∷ b'\n' ∷ [])
              (All-append (λ x. x ≢ b' ') cmd (c ∷ b'\n' ∷ []) k (n, ((λ e. omega arith), tt))),
        )
        (rw (rtrimlast_drops cmd c w))

  parse_rest_payload :
      (cmd body tail : Text) (c : ℕ)
      → Lacks b' ' cmd
      → Lacks b'\n' body
      → c ≢ b'\n'
      → length body + length tail + 2 < size_mod
      → parse_rest h (cmd ++ b' ' ∷ (body ++ c ∷ b'\n' ∷ tail)) parts ≡ (
        record h { command_str = cmd; error_packet = no_packet_error },
        parts ++ (command, cmd) ∷ (payload, body) ∷ [],
      )
  unfolding parse_rest
  parse_rest_payload cmd body tail c k l n w =
      let line = body ++ c ∷ b'\n' ∷ tail in
      rw (is_empty_append cmd line b' ', find_space cmd line k)
        (rw (take-append cmd (b' ' ∷ line), drop_past cmd line b' ')
          (rw
            (take_all npos line
              (le-npos (length line) (omega (arith, length-append body (c ∷ b'\n' ∷ tail)))))
            (rw (chomp_drops body tail c l n (omega arith)))))

module _ (h : ProcHandler) (tok rest : Text) (t : Lacks b' ' tok)
    (short : length tok ≤ max_token_length) where
  -- A request that starts with a token and a space.
  parse_token :
      length rest < size_mod
      → parse_command h (tok ++ b' ' ∷ rest)
        ≡ parse_rest (record h { token = tok }) rest ((token, tok) ∷ [])
  unfolding parse_command
  parse_token w =
      rw (is_empty_append h [] tok rest b' ', find_space tok rest t)
        (rw (take-append tok (b' ' ∷ rest), drop_past tok rest b' ')
          (rw (take_all npos rest (le-npos (length rest) w), leb_short)))
    where
      leb_short : ltb max_token_length (length tok) ≡ false
      leb_short = ground arith

-- A request "token command" with a token of at most 10 bytes, no space in either, and a line end of two bytes
-- that starts with no space sets the token and the command of the
-- handler, clears its error, and has those two parts and no payload.
pub parse_command-bare :
    (h : ProcHandler) (tok cmd : Text) (c : ℕ)
    → Lacks b' ' tok
    → length tok ≤ max_token_length
    → Lacks b' ' cmd
    → c ≢ b' '
    → length cmd + 2 < size_mod
    → parse_command h (tok ++ b' ' ∷ (cmd ++ c ∷ b'\n' ∷ [])) ≡ (
      record h { token = tok; command_str = cmd; error_packet = no_packet_error },
      (token, tok) ∷ (command, cmd) ∷ [],
    )
parse_command-bare h tok cmd c t s k n w =
    parse_token h tok (cmd ++ c ∷ b'\n' ∷ []) t s
      (omega (arith, length-append cmd (c ∷ b'\n' ∷ [])))
    ∙ parse_rest_bare _ _ cmd c k n (omega arith)

-- A request "token command payload" with a token of at most 10 bytes, no space in token and command, no line
-- feed in the payload, and a line end of two bytes sets token and command and has three parts; what follows the
-- line end is dropped.
pub parse_command-payload :
    (h : ProcHandler) (tok cmd body tail : Text) (c : ℕ)
    → Lacks b' ' tok
    → length tok ≤ max_token_length
    → Lacks b' ' cmd
    → Lacks b'\n' body
    → c ≢ b'\n'
    → length cmd + length body + length tail + 3 < size_mod
    → parse_command h (tok ++ b' ' ∷ (cmd ++ b' ' ∷ (body ++ c ∷ b'\n' ∷ tail))) ≡ (
      record h { token = tok; command_str = cmd; error_packet = no_packet_error },
      (token, tok) ∷ (command, cmd) ∷ (payload, body) ∷ [],
    )
parse_command-payload h tok cmd body tail c t s k l n w =
    parse_token h tok (cmd ++ b' ' ∷ (body ++ c ∷ b'\n' ∷ tail)) t s (
      omega (
        arith,
        length-append cmd (b' ' ∷ (body ++ c ∷ b'\n' ∷ tail)),
        length-append body (c ∷ b'\n' ∷ tail),
      ))
    ∙ parse_rest_payload _ _ cmd body tail c k l n (omega arith)

-- When `parse_command` reports which error, by the shape of the request alone.
pub data Reports (request : Text) : PacketError → Type 0 where
  nothing : request ≡ [] → Reports request invalid_syntax
  no_space : request ≢ [] → Lacks b' ' request → Reports request PacketError.no_command
  long_token :
      (tok rest : Text)
      → request ≡ tok ++ b' ' ∷ rest
      → Lacks b' ' tok
      → max_token_length < length tok
      → Reports request token_too_long
  token_only :
      (tok : Text)
      → request ≡ tok ++ b' ' ∷ []
      → Lacks b' ' tok
      → length tok ≤ max_token_length
      → Reports request invalid_syntax
  well_formed :
      (tok rest : Text)
      → request ≡ tok ++ b' ' ∷ rest
      → Lacks b' ' tok
      → length tok ≤ max_token_length
      → rest ≢ []
      → Reports request no_packet_error

parse_rest_error :
    (h : ProcHandler) (x : ℕ) (rest : Text) (parts : Parts)
    → (parse_rest h (x ∷ rest) parts).0.error_packet ≡ no_packet_error
unfolding parse_rest
parse_rest_error h x rest parts = elim (Option-cases (find_first_of space (x ∷ rest))) [
  | inl e ↦ rw e refl
  | inr (i, e) ↦ rw e refl
]

pub parse_long_token :
    (h : ProcHandler) (tok rest : Text)
    → Lacks b' ' tok
    → max_token_length < length tok
    → parse_command h (tok ++ b' ' ∷ rest) ≡ (fail h token_too_long, [])
unfolding parse_command
parse_long_token h tok rest t l =
    rw (is_empty_append h [] tok rest b' ', find_space tok rest t)
      (rw (take-append tok (b' ' ∷ rest), leb_long))
  where
    leb_long : ltb max_token_length (length tok) ≡ true
    leb_long = ground arith

Reports-token :
    (h : ProcHandler) (tok rest request : Text)
    → request ≡ tok ++ b' ' ∷ rest
    → Lacks b' ' tok
    → length tok ≤ max_token_length
    → length rest < size_mod
    → Reports request (parse_command h request).0.error_packet
unfolding parse_rest
Reports-token h tok [] request e t s w =
    rw (e, parse_token h tok [] t s w) (token_only tok refl t s)
Reports-token h tok (x ∷ rest) request e t s w =
    rw
      (
        e,
        parse_token h tok (x ∷ rest) t s w,
        parse_rest_error (record h { token = tok }) x rest ((token, tok) ∷ []),
      )
      (well_formed tok (x ∷ rest) refl t s (λ n. cc))

Reports-request :
    (h : ProcHandler) (tok rest request : Text)
    → request ≡ tok ++ b' ' ∷ rest
    → Lacks b' ' tok
    → length rest < size_mod
    → Reports request (parse_command h request).0.error_packet
Reports-request h tok rest request e t w = elim (Bool-cases (ltb max_token_length (length tok))) [
  | inl l ↦
      rw (e, parse_long_token h tok rest t (ground arith))
        (long_token tok rest refl t (ground arith))
  | inr s ↦ Reports-token h tok rest request e t (ground arith) w
]

-- The error that `parse_command` leaves is the one that `Reports` gives for the shape of the request, for
-- every request that fits in memory.
pub parse_command-Reports :
    (h : ProcHandler) (request : Text)
    → length request < size_mod
    → Reports request (parse_command h request).0.error_packet
unfolding parse_command
parse_command-Reports h [] w = nothing refl
parse_command-Reports h (x ∷ xs) w = elim (first_char b' ' (x ∷ xs)) [
  | inl l ↦ rw (find_space-none (x ∷ xs) l) (no_space (λ e. cc) l)
  | inr (tok, rest, e, t) ↦
      Reports-request h tok rest (x ∷ xs) e t
        (omega (arith, ap length e, length-append tok (b' ' ∷ rest)))
]
