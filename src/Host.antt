-- ===== src/Host.antt =====
-- The operating system as the daemon meets it. A program here is a function of the environment `Env`,
-- which answers every call from the calls made before it, and of that history, newest call first. So
-- any behaviour of the system is some environment, and the history is the program's effect.
use cci_daemon.Base.{ℕ, List, ◌∷◌, Text, ℤ}

pub data Call : Type 0 where
  fork setsid sysconf_open_max getpid : Call
  umask close register_handler sleep : ℕ → Call
  fcntl_getfd : ℤ → Call
  set_lock : ℤ → ℕ → ℕ → ℕ → ℕ → Call
  chdir open_file create_file stat_file remove print : Text → Call
  dup2 : ℕ → ℕ → Call
  fcntl_setfd : ℤ → ℤ → Call
  ftruncate : ℤ → ℕ → Call
  write_file : ℤ → Text → Call

pub record Env : Type 0 where
  pub answer : List Call → Call → ℤ
  pub errno : List Call → ℕ

-- How a program ends: it returns, its process exits with a status, or it has spent its fuel.
pub data Outcome {ℓ} (A : Type ℓ) : Type ℓ where
  returned : A → Outcome A
  exited : ℕ → Outcome A
  spent : Outcome A

abbrev pub M {ℓ} : Type ℓ → Type ℓ
M A = Env → List Call → Outcome A × List Call

abbrev pub pure {ℓ} : {A : Type ℓ} → A → M A
pure a env past = (returned a, past)

abbrev pub exit {ℓ} : {A : Type ℓ} → ℕ → M A
exit status env past = (exited status, past)

abbrev pub out_of_fuel {ℓ} : {A : Type ℓ} → M A
out_of_fuel env past = (spent, past)

abbrev pub bind_outcome {ℓ κ} :
    {A : Type ℓ} {B : Type κ} → Outcome A × List Call → (A → M B) → Env → Outcome B × List Call
bind_outcome (returned a, past) f env = f a env past
bind_outcome (exited status, past) f env = (exited status, past)
bind_outcome (spent, past) f env = (spent, past)

infixl 5 ◌>>=◌ ◌>>◌
abbrev pub ◌>>=◌ {ℓ κ} : {A : Type ℓ} {B : Type κ} → M A → (A → M B) → M B
◌>>=◌ m f env past = bind_outcome (m env past) f env

abbrev pub ◌>>◌ {ℓ κ} : {A : Type ℓ} {B : Type κ} → M A → M B → M B
m >> k = m >>= λ _. k

abbrev pub call : Call → M ℤ
call c env past = (returned (env.answer past c), c ∷ past)

abbrev pub get_errno : M ℕ
get_errno env past = (returned (env.errno past), past)
