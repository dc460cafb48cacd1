-- ===== src/Manager/Named.antt =====
-- What a line names, as the authentication manager parses it, and the reference for its answers.
use cci_daemon.Base.{
  ℕ, ◌+◌, ◌≡◌, ◌≢◌, ◌<◌, inl, inr, refl, sym, ap, ◌∙◌, Bool, true, false, Option, none, some, List,
  [], ◌∷◌, ◌++◌, arith, if◌then◌else◌, ltb, length, All-append, All-split, Text, codes, Lacks,
  contains-Lacks, size_mod, Bool-cases, append_assoc, length-append, subst,
}
use cci_daemon.Handler.State.{ProcHandler}
use cci_daemon.Handler.Strings.{lcase}
use cci_daemon.Handler.Protocol.{
  max_token_length, command, Parts, find_part, text_eq, find_command, bare_line, is_no_error,
}
use cci_daemon.Handler.Protocol
use cci_daemon.Handler.Protocol.Parse.{find_space-none, parse_long_token}
use cci_daemon.Handler.Protocol.Reference.{Client, split_word, command_name, line_answer}
use cci_daemon.Handler.Protocol.Refine.{line_end, split-cases, parse_line}
use cci_daemon.Manager.State.{AuthMgrHandler}
use cci_daemon.Manager.Protocol.{parse_command}
use cci_daemon.Manager.Equivalence.{as_proc, NoLogin, parse_command-same}

-- The command that a line names, if it gets so far.
abbrev pub named : Option (Text × Text) → Option Text
named none = none
named (some (tok, rest)) =
    if ltb max_token_length (length tok) then none else some (command_name rest)

abbrev pub is_login : Option Text → Bool
is_login none = false
is_login (some name) = text_eq (codes "login") (lcase name)

abbrev pub first_word : Option (Text × Text) → Text
first_word none = []
first_word (some (tok, rest)) = tok

unfoldable pub manager_answer : Client → Text → Client × Text
manager_answer c line =
    if is_login (named (split_word line))
    then (record c { token = first_word (split_word line) }, [])
    else line_answer c line

unfoldable pub manager_answers : Client → List Text → Client × Text
manager_answers c [] = (c, [])
manager_answers c (line ∷ lines) =
    let (after, text) = manager_answer c line in
    let (last, texts) = manager_answers after lines in (last, text ++ texts)

unspaced_parts :
    (h : ProcHandler) (x : ℕ) (xs : Text)
    → Lacks b' ' (x ∷ xs)
    → (Protocol.parse_command h (x ∷ xs)).1 ≡ []
unfolding Protocol.parse_command
unspaced_parts h x xs l = rw (find_space-none (x ∷ xs) l) refl

unspaced_line :
    (h : ProcHandler) (line : Text)
    → Lacks b' ' line
    → (Protocol.parse_command h (line ++ line_end)).1 ≡ []
unspaced_line h [] k = unspaced_parts h b'\r' (b'\n' ∷ []) (contains-Lacks b' ' line_end refl)
unspaced_line h (x ∷ xs) k =
    unspaced_parts h x (xs ++ line_end)
      (All-append (λ b. b ≢ b' ') (x ∷ xs) line_end k (contains-Lacks b' ' line_end refl))

word_named :
    (h : ProcHandler) (tok rest : Text)
    → Lacks b' ' tok
    → Lacks b'\n' rest
    → length rest + 3 < size_mod
    → find_part command (Protocol.parse_command h (tok ++ b' ' ∷ (rest ++ line_end))).1
      ≡ named (some (tok, rest))
word_named h tok rest k l w = elim (Bool-cases (ltb max_token_length (length tok))) [
  | inl e ↦ rw (e, parse_long_token h tok (rest ++ line_end) k (ground arith)) refl
  | inr e ↦
      let (parts, p, f) = parse_line h tok rest k (ground arith) l w in
      rw e (ap (λ (r : ProcHandler × Parts). find_part command r.1) p ∙ f)
]

pub shape :
    (line tok rest : Text)
    → line ≡ tok ++ b' ' ∷ rest
    → tok ++ b' ' ∷ (rest ++ line_end) ≡ line ++ line_end
shape line tok rest f =
    sym (ap (λ (u : Text). u ++ line_end) f ∙ append_assoc tok (b' ' ∷ rest) line_end)

pub no_feed_rest :
    (line tok rest : Text) → line ≡ tok ++ b' ' ∷ rest → Lacks b'\n' line → Lacks b'\n' rest
no_feed_rest line tok rest f l =
    (All-split (λ b. b ≢ b'\n') tok (b' ' ∷ rest) (subst (Lacks b'\n') f l)).1.1

pub rest_fits :
    (line tok rest : Text)
    → line ≡ tok ++ b' ' ∷ rest
    → length line + 2 < size_mod
    → length rest + 3 < size_mod
rest_fits line tok rest f w = omega (arith, ap length f, length-append tok (b' ' ∷ rest))

-- What a line names, as `parse_command` finds it.
proc_named :
    (h : ProcHandler) (line : Text)
    → Lacks b'\n' line
    → length line + 2 < size_mod
    → find_part command (Protocol.parse_command h (line ++ line_end)).1 ≡ named (split_word line)
proc_named h line l w = elim (split-cases line) [
  | inl (e, k) ↦ rw e (ap (find_part command) (unspaced_line h line k))
  | inr (tok, rest, e, f, k) ↦ rw e (
      subst
        (λ (u : Text). find_part command (Protocol.parse_command h u).1 ≡ named (some (tok, rest)))
        (shape line tok rest f)
        (word_named h tok rest k (no_feed_rest line tok rest f l) (rest_fits line tok rest f w)))
]

pub line_named :
    (a : AuthMgrHandler) (line : Text)
    → Lacks b'\n' line
    → length line + 2 < size_mod
    → find_part command (parse_command a (line ++ line_end)).1 ≡ named (split_word line)
line_named a line l w =
    ap (find_part command) (parse_command-same a (line ++ line_end)).1
    ∙ proc_named (as_proc a) line l w

pub line-NoLogin :
    (a : AuthMgrHandler) (line : Text)
    → Lacks b'\n' line
    → length line + 2 < size_mod
    → is_login (named (split_word line)) ≡ false
    → NoLogin a (line ++ line_end)
line-NoLogin a line l w n name f e =
    no_login (named (split_word line)) name (sym (line_named a line l w) ∙ f) e n
  where
    no_login :
        (o : Option Text) (name : Text)
        → o ≡ some name
        → lcase name ≡ codes "login"
        → ¬ (is_login o ≡ false)
    no_login o name f e n =
        let p : is_login o ≡ true = ap is_login f ∙ ap (text_eq (codes "login")) e in cc (p, n)
