-- ===== src/Handler/Protocol/Reference.antt =====
-- What the protocol promises to a client, without buffers, parts or flags: each line has an answer, which
-- depends on the last token and on whether the client has logged in.
use cci_daemon.Base.{
  ℕ, Bool, true, Option, none, some, List, [], ◌∷◌, ◌++◌, ◌==◌, ltb, if◌then◌else◌, length,
  is_empty, Text, codes,
}
use cci_daemon.Handler.State.{
  PacketError, token_too_long, unrecognized_command, already_authenticated,
}
use cci_daemon.Handler.Strings.{lcase}
use cci_daemon.Handler.Protocol.{max_token_length, text_eq}
use cci_daemon.Handler.Protocol.Perform.{ok_line}
use cci_daemon.Handler.Protocol.Session.{error_line}

pub record Client : Type 0 where
  pub token : Text
  pub inside : Bool

-- The word before the first space, and the rest.
abbrev pub cons_word : ℕ → Option (Text × Text) → Option (Text × Text)
cons_word x none = none
cons_word x (some (word, rest)) = some (x ∷ word, rest)

unfoldable pub split_word : Text → Option (Text × Text)
split_word [] = none
split_word (x ∷ xs) =
    let rest = split_word xs in if x == b' ' then some ([], xs) else cons_word x rest

abbrev pub first_of : Text → Option (Text × Text) → Text
first_of rest none = rest
first_of rest (some (word, body)) = word

abbrev pub command_name : Text → Text
command_name rest = first_of rest (split_word rest)

unfoldable pub command_answer : Client → Text → Text → Client × Text
command_answer c tok name =
    if text_eq (codes "login") (lcase name)
    then (if c.inside
        then (record c { token = tok }, error_line tok already_authenticated)
        else (record { token = tok; inside = true }, ok_line tok))
    else (record c { token = tok }, error_line tok unrecognized_command)

abbrev pub word_answer : Client → Option (Text × Text) → Client × Text
word_answer c none = (c, error_line c.token PacketError.no_command)
word_answer c (some (tok, rest)) =
    if ltb max_token_length (length tok)
    then (c, error_line c.token token_too_long)
    else command_answer c tok (command_name rest)

-- The answer to a line; an empty one has none.
unfoldable pub line_answer : Client → Text → Client × Text
line_answer c line = if is_empty line then (c, []) else word_answer c (split_word line)

unfoldable pub lines_answer : Client → List Text → Client × Text
lines_answer c [] = (c, [])
lines_answer c (line ∷ lines) =
    let (after, text) = line_answer c line in
    let (last, texts) = lines_answer after lines in (last, text ++ texts)
