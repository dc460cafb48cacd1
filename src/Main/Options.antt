-- ===== src/Main/Options.antt =====
-- The options of the main programs.
use cci_daemon.Base.{
  ◌≡◌, ◌≢◌, inl, inr, refl, Bool, true, false, Option, none, some, List, [], ◌∷◌, ◌++◌, arith, All,
  Text, Bool-cases,
}
use cci_daemon.Handler.Protocol.{text_eq}
use cci_daemon.Handler.Protocol.Perform.{text_eq-true}
use cci_daemon.Main.{find_option, get_cmd_option, cmd_option_exists}

pub text_eq_refl : (s : Text) → text_eq s s ≡ true
text_eq_refl [] = refl
text_eq_refl (x ∷ s) = ground (arith, text_eq_refl s)

text_eq_ne : (s t : Text) → s ≢ t → text_eq s t ≡ false
text_eq_ne s t n = elim (Bool-cases (text_eq s t)) [
  | inl e ↦ absurd (n (text_eq-true s t e))
  | inr e ↦ e
]

find_option-append :
    (before args : List Text) (option : Text)
    → All (λ (arg : Text). arg ≢ option) before
    → find_option (before ++ option ∷ args) option ≡ option ∷ args
unfolding find_option
find_option-append [] args option a = rw (text_eq_refl option) refl
find_option-append (arg ∷ before) args option (n, a) =
    rw (text_eq_ne arg option n) (find_option-append before args option a)

find_option-none :
    (args : List Text) (option : Text)
    → All (λ (arg : Text). arg ≢ option) args
    → find_option args option ≡ []
unfolding find_option
find_option-none [] option a = refl
find_option-none (arg ∷ args) option (n, a) =
    rw (text_eq_ne arg option n) (find_option-none args option a)

-- The first place of an option among the arguments, or that it is not there.
pub data Placed (option : Text) : List Text → Type 0 where
  at_end :
      (before : List Text)
      → All (λ (arg : Text). arg ≢ option) before
      → Placed option (before ++ option ∷ [])
  followed :
      (before : List Text) (next : Text) (after : List Text)
      → All (λ (arg : Text). arg ≢ option) before
      → Placed option (before ++ option ∷ next ∷ after)
  absent : (args : List Text) → All (λ (arg : Text). arg ≢ option) args → Placed option args

abbrev pub behind : {option : Text} {args : List Text} → Placed option args → Option Text
behind (at_end before a) = none
behind (followed before next after a) = some next
behind (absent args a) = none

abbrev pub there : {option : Text} {args : List Text} → Placed option args → Bool
there (at_end before a) = true
there (followed before next after a) = true
there (absent args a) = false

-- `cmd_option_exists` tells whether the option is among the arguments, and `get_cmd_option` gives the argument
-- behind its first place: none where it is absent or the last one.
pub get_cmd_option-Placed :
    (option : Text) (args : List Text) (p : Placed option args)
    → (get_cmd_option args option ≡ behind p) × (cmd_option_exists args option ≡ there p)
unfolding get_cmd_option cmd_option_exists
get_cmd_option-Placed option _ (at_end before a) =
    rw (find_option-append before [] option a) ((refl, refl))
get_cmd_option-Placed option _ (followed before next after a) =
    rw (find_option-append before (next ∷ after) option a) ((refl, refl))
get_cmd_option-Placed option _ (absent args a) = rw (find_option-none args option a) ((refl, refl))
