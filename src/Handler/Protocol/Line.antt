-- ===== src/Handler/Protocol/Line.antt =====
-- A request of one line is answered as the reference answers it.
use cci_daemon.Base.{
  ℕ, ◌+◌, ◌≡◌, ◌≢◌, ◌<◌, inl, inr, refl, sym, ap, ◌∙◌, Bool, false, some, [], ◌∷◌, ◌++◌, arith,
  ◌==◌, ◌&&◌, ltb, length, length-append, find, contains-Lacks, All-append, All-split, subst, Text,
  codes, Lacks, size_mod, Bool-cases, append_assoc,
}
use cci_daemon.Handler.State.{
  PacketError, no_packet_error, token_too_long, authenticated, ProcHandler, output_prompt,
  in_states,
}
use cci_daemon.Handler.Protocol.Refine.{
  line_end, split-cases, parse_line, Represents, Answered, respond_error, named_answer,
}
use cci_daemon.Handler.Protocol.Parse.{find_space-none, parse_long_token}
use cci_daemon.Handler.Protocol.Session.{
  error_line, flush-sent, flush-rest, flush-Ready, not_logout_eq,
}
use cci_daemon.Handler.Protocol.Login.{perform_nonempty}
use cci_daemon.Handler.Protocol.Reference.{
  Client, split_word, command_name, word_answer, line_answer,
}
use cci_daemon.Handler.Protocol.{
  max_token_length, fail, found, parse_command, perform_parts, perform, respond, bare_line, execute,
}

perform_unspaced :
    (h : ProcHandler) (x : ℕ) (xs : Text)
    → Lacks b' ' (x ∷ xs)
    → perform h (x ∷ xs) ≡ fail h PacketError.no_command
unfolding perform parse_command perform_parts
perform_unspaced h x xs l = rw (find_space-none (x ∷ xs) l) refl

pub not_bare_line : (x : ℕ) (xs : Text) → bare_line ((x ∷ xs) ++ line_end) ≡ false
not_bare_line x xs = rw long (and_false (found (find (codes "\n") ((x ∷ xs) ++ line_end))))
  where
    long : (length ((x ∷ xs) ++ line_end) == 2) ≡ false
    long = ground (arith, length-append xs line_end)

    and_false : (b : Bool) → (b && false) ≡ false
    and_false b = ground arith

perform_parts-fail :
    (h : ProcHandler) → perform_parts (fail h token_too_long, []) ≡ fail h token_too_long
unfolding perform_parts
perform_parts-fail h = refl

execute_content :
    (h : ProcHandler) (request : Text)
    → bare_line request ≡ false
    → execute h request ≡ respond (perform h request) false
unfolding execute
execute_content h request e = rw e refl

module _ (h : ProcHandler) (c : Client) (r : Represents h c) where
  refused_answer :
      (pe : PacketError)
      → pe ≢ no_packet_error
      → Answered h (respond (fail h pe) false).0 (c, error_line c.token pe)
  refused_answer pe n =
      respond_error h _ c
        (record {
          ready = record {
            command_map = r.ready.command_map;
            not_logout = r.ready.not_logout;
            flushed = r.ready.flushed;
          };
          loud = r.loud;
          token = r.token;
          inside = r.inside;
        })
        refl n

  word-Answered :
      (tok rest : Text)
      → Lacks b' ' tok
      → Lacks b'\n' rest
      → length rest + 3 < size_mod
      → Answered h
          (respond (perform h (tok ++ b' ' ∷ (rest ++ line_end))) false).0
          (word_answer c (some (tok, rest)))
  word-Answered tok rest t l w =
      rw (perform_nonempty h tok (rest ++ line_end))
        (elim (Bool-cases (ltb max_token_length (length tok))) [
          | inl e ↦
              rw
                (
                  e,
                  parse_long_token h tok (rest ++ line_end) t (ground arith),
                  perform_parts-fail h,
                )
                (refused_answer token_too_long (λ q. cc))
          | inr e ↦
              let (parts, p, f) = parse_line h tok rest t (ground arith) l w in
              rw (e, p) (named_answer h c r tok (command_name rest) parts f)
        ])

  content-Answered :
      (x : ℕ) (xs : Text)
      → Lacks b'\n' (x ∷ xs)
      → length xs + 3 < size_mod
      → Answered h
          (respond (perform h ((x ∷ xs) ++ line_end)) false).0
          (word_answer c (split_word (x ∷ xs)))
  content-Answered x xs l w = elim (split-cases (x ∷ xs)) [
    | inl (e, k) ↦
        rw
          (
            e,
            perform_unspaced h x (xs ++ line_end) (
                All-append (λ b. b ≢ b' ') (x ∷ xs) line_end k (contains-Lacks b' ' line_end refl)),
          )
          (refused_answer PacketError.no_command (λ q. cc))
    | inr (tok, rest, e, f, k) ↦ rw e (
        subst
          (λ (u : Text).
            Answered h (respond (perform h u) false).0 (word_answer c (some (tok, rest))))
          (sym (ap (λ (u : Text). u ++ line_end) f ∙ append_assoc tok (b' ' ∷ rest) line_end))
          (word-Answered tok rest k
            (All-split (λ b. b ≢ b'\n') tok (b' ' ∷ rest) (subst (Lacks b'\n') f l)).1.1
            (omega (arith, ap length f, length-append tok (b' ' ∷ rest)))))
  ]

  empty-Answered : Answered h (execute h line_end).0 (c, [])
  unfolding execute respond output_prompt
  empty-Answered = rw (perform_unspaced h b'\r' (b'\n' ∷ []) (contains-Lacks b' ' line_end refl)) (
      (
        record {
          ready = flush-Ready _ r.ready.command_map (not_logout_eq _ r.ready.not_logout);
          loud = (flush-rest _).3 ∙ r.loud;
          token = (flush-rest _).0 ∙ r.token;
          inside = ap (in_states authenticated) (flush-rest _).2 ∙ r.inside;
        },
        flush-sent _ r.loud ∙ ap (λ (u : Text). h.sent ++ (u ++ [])) r.ready.flushed,
      ))

-- A whole line, as the reference answers it.
pub execute-line_answer :
    (h : ProcHandler) (c : Client) (line : Text)
    → Represents h c
    → Lacks b'\n' line
    → length line + 2 < size_mod
    → Answered h (execute h (line ++ line_end)).0 (line_answer c line)
unfolding line_answer
execute-line_answer h c [] r l w = empty-Answered h c r
execute-line_answer h c (x ∷ xs) r l w =
    rw (execute_content h ((x ∷ xs) ++ line_end) (not_bare_line x xs))
      (content-Answered h c r x xs l (omega arith))
