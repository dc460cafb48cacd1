-- ===== src/Kernel/Brokers.antt =====
-- `publish_and_subscribe_server` of include/cci_pub_and_sub.h: the chain of duplexers.
use cci_daemon.Base.{
  ◌≡◌, refl, ap, inl, inr, Bool, true, false, ◌||◌, [], ◌∷◌, ◌++◌, if◌then◌else◌, Text, codes, All,
  Bool-cases,
}
use cci_daemon.Kernel.{Result, thrown, Broker, Duplexer, Server}

pub add_publish_subscribe_duplexer : Server → Duplexer → Server
add_publish_subscribe_duplexer s d = s ++ d ∷ []

abbrev pub unsupported : Text
unsupported = codes "invalid or unsupported duplexer type"

unfoldable pub open_broker : Server → Text → Result Broker
open_broker [] config = thrown unsupported
open_broker (d ∷ ds) config =
    let rest = open_broker ds config in
    if d.can_open_broker config then d.open_broker config else rest

-- Which duplexer answers.
pub data Chosen (s : Server) (config : Text) : Result Broker → Type 0 where
  nobody : All (λ d. d.can_open_broker config ≡ false) s → Chosen s config (thrown unsupported)
  first :
      (front : Server) (d : Duplexer) (behind : Server)
      → s ≡ front ++ d ∷ behind
      → All (λ x. x.can_open_broker config ≡ false) front
      → d.can_open_broker config ≡ true
      → Chosen s config (d.open_broker config)

Chosen-skip :
    (d : Duplexer) (ds : Server) (config : Text) (r : Result Broker)
    → d.can_open_broker config ≡ false
    → Chosen ds config r
    → Chosen (d ∷ ds) config r
Chosen-skip d ds config _ e (nobody all) = nobody (e, all)
Chosen-skip d ds config _ e (first front x behind s all can) =
    first (d ∷ front) x behind (ap (◌∷◌ d) s) (e, all) can

-- `open_broker` gives the answer of the first duplexer that can open the broker, and throws if there is
-- none.
pub open_broker-Chosen : (s : Server) (config : Text) → Chosen s config (open_broker s config)
unfolding open_broker
open_broker-Chosen [] config = nobody tt
open_broker-Chosen (d ∷ ds) config = elim (Bool-cases (d.can_open_broker config)) [
  | inl e ↦ rw e (first [] d ds refl tt e)
  | inr e ↦ rw e (Chosen-skip d ds config _ e (open_broker-Chosen ds config))
]

abbrev pub any_can : Server → Text → Bool
any_can [] config = false
any_can (d ∷ ds) config = d.can_open_broker config || any_can ds config

-- A duplexer that is added is asked last: it answers only where no other one can open the broker.
pub open_broker-add :
    (s : Server) (d : Duplexer) (config : Text)
    → open_broker (add_publish_subscribe_duplexer s d) config
      ≡ (if any_can s config then open_broker s config else open_broker (d ∷ []) config)
unfolding add_publish_subscribe_duplexer open_broker
open_broker-add [] d config = refl
open_broker-add (x ∷ xs) d config = elim (Bool-cases (x.can_open_broker config)) [
  | inl e ↦ rw e refl
  | inr e ↦ rw e (open_broker-add xs d config)
]
