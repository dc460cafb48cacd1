-- ===== src/Facade/Logged.antt =====
-- What a round of the default daemon's loop writes to the log, and computations that write lines and go on.
use cci_daemon.Base.{
  ℕ, ◌≡◌, ◌≤◌, inl, inr, refl, sym, ap, ◌∙◌, Bool, true, false, Option, none, some, List, [], ◌∷◌,
  ◌++◌, ◌==◌, if◌then◌else◌, Text, codes, c_string, Bool-cases, Option-cases, append_assoc,
  append-nil,
}
use cci_daemon.Facade.{
  Ending, done, System, Facade, E, bind_ending, log_message, open_log, read_config_file,
}
use cci_daemon.Facade.Exec.{Wake, sleep_time, reload, working, hear, tick}

-- What a round is to write to the log, and how long the next one sleeps.
abbrev pub config_lines : Option Text → List Text
config_lines none = []
config_lines (some str) = c_string (codes "read config file: " ++ str ++ 0 ∷ []) ∷ []

abbrev pub round_lines : Wake → List Text
round_lines w =
    (if w.hup then config_lines w.sys.config_line else [])
    ++ (if w.left == 0 then c_string working ∷ [] else [])

abbrev pub next_sleep : Wake → ℕ
next_sleep w = if w.left == 0 then sleep_time else w.left

-- The log is there again whenever SIGHUP asks for it, and `sleep` leaves at most what it was asked for.
pub record Sane (unslept : ℕ) (w : Wake) : Type 0 where
  pub short : w.left ≤ unslept
  pub accessible : w.hup ≡ true → w.sys.log_accessible ≡ true
  pub opens : w.hup ≡ true → w.sys.log_opens ≡ true

-- A computation that has written these lines and goes on with the log open.
pub data Logged {ℓ} {A : Type ℓ} (f : Facade) (lines : List Text) (a : A)
    : Facade × Ending A → Type ℓ where
  logged :
      (g : Facade)
      → g.log ≡ f.log ++ lines
      → g.log_fp ≡ true
      → g.opened ≡ true
      → Logged f lines a (g, done a)

pub Logged-bind {ℓ κ} :
    {A : Type ℓ} {B : Type κ} (f : Facade) (lines more : List Text) (a : A) (b : B)
    (r : Facade × Ending A) (k : A → E B)
    → Logged f lines a r
    → ((g : Facade) → g.log_fp ≡ true → g.opened ≡ true → Logged g more b (k a g))
    → Logged f (lines ++ more) b (bind_ending r k)
Logged-bind {B = B} f lines more a b _ k (logged g e l o) next = go (k a g) (next g l o)
  where
    go : (q : Facade × Ending B) → Logged g more b q → Logged f (lines ++ more) b q
    go _ (logged h e' l' o') =
        logged h (e' ∙ ap (λ (u : List Text). u ++ more) e ∙ append_assoc f.log lines more) l' o'

reload-Logged :
    (sys : System) (f : Facade)
    → f.opened ≡ true
    → sys.log_accessible ≡ true
    → sys.log_opens ≡ true
    → Logged f (config_lines sys.config_line) tt (reload sys f)
unfolding reload open_log read_config_file log_message
reload-Logged sys f o a l =
    rw (a, l)
      (elim (Option-cases sys.config_line) [
        | inl c ↦ rw c (logged _ (sym (append-nil f.log)) refl o)
        | inr (line, c) ↦ rw c (logged _ refl refl o)
      ])

pub hear-Logged :
    (u : ℕ) (w : Wake) (f : Facade)
    → f.log_fp ≡ true
    → f.opened ≡ true
    → Sane u w
    → Logged f (if w.hup then config_lines w.sys.config_line else []) tt (hear w f)
unfolding hear
hear-Logged u w f l o s = elim (Bool-cases w.hup) [
  | inl h ↦ simp h (reload-Logged w.sys f o (s.accessible h) (s.opens h))
  | inr h ↦ simp h (logged f (sym (append-nil f.log)) l o)
]

pub if_true {ℓ} : {A : Type ℓ} (b : Bool) (x y : A) → b ≡ true → (if b then x else y) ≡ x
if_true true x y e = refl
if_true false x y e = cc

pub if_false {ℓ} : {A : Type ℓ} (b : Bool) (x y : A) → b ≡ false → (if b then x else y) ≡ y
if_false true x y e = cc
if_false false x y e = refl

pub tick-Logged :
    (w : Wake) (g : Facade)
    → g.log_fp ≡ true
    → g.opened ≡ true
    → Logged g (if w.left == 0 then c_string working ∷ [] else []) (next_sleep w) (tick w g)
unfolding tick log_message
tick-Logged w g l o = elim (Bool-cases (w.left == 0)) [
  | inl e ↦ rw e (logged _ (if_true g.log_fp _ _ l) l o)
  | inr e ↦ rw e (logged g (sym (append-nil g.log)) l o)
]
