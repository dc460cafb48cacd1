-- ===== src/Meta/Work.antt =====
-- The work of the meta daemon, until a signal comes.
use cci_daemon.Base.{ℕ, zero, suc, ◌+◌, ◌≡◌, refl, ap, ◌∙◌, List, ◌∷◌, arith, codes, pos}
use cci_daemon.Host.{Call, register_handler, sleep, print, Env, exited, spent}
use cci_daemon.Meta.{handle_signal, deliver, work, proc_init, sigterm, sigint}

-- The calls after so many rounds of work, and that no signal comes in them.
abbrev pub after_rounds : ℕ → List Call → List Call
after_rounds zero past = past
after_rounds (suc k) past = after_rounds k (print (codes "....working.....\n") ∷ sleep 5 ∷ past)

abbrev pub Idle : ℕ → Env → List Call → Type 0
Idle zero env past = Unit {0}
Idle (suc k) env past =
    (env.answer past (sleep 5) ≡ pos 0)
    × Idle k env (print (codes "....working.....\n") ∷ sleep 5 ∷ past)

work-Idle :
    (k left rounds : ℕ) (env : Env) (past : List Call)
    → Idle k env past
    → rounds ≡ k + left
    → work rounds env past ≡ work left env (after_rounds k past)
unfolding work deliver
work-Idle zero left rounds env past i e =
    let f : rounds ≡ left = omega arith in ap (λ (r : ℕ). work r env past) f
work-Idle (suc k) left zero env past i e = absurd (omega arith)
work-Idle (suc k) left (suc rounds) env past (i, is) e =
    rw i (work-Idle k left rounds env _ is (omega arith))

-- The signals that end the process, and its status then.
pub data Ends : ℕ → ℕ → Type 0 where
  term : Ends sigterm 1
  int : Ends sigint 0

work-Ends :
    (signal status rounds : ℕ) (env : Env) (past : List Call)
    → Ends signal status
    → env.answer past (sleep 5) ≡ pos signal
    → work (suc rounds) env past ≡ (exited status, sleep 5 ∷ past)
unfolding work deliver handle_signal
work-Ends _ _ rounds env past term e = rw e refl
work-Ends _ _ rounds env past int e = rw e refl

-- The calls by which `proc_init` gets to its work.
abbrev pub registered : List Call → List Call
registered past = register_handler sigint ∷ register_handler sigterm ∷ past

-- The daemon procedure works in rounds of five seconds and does not return: after rounds without a signal it
-- still runs, and a SIGTERM or a SIGINT in the next round ends the process, with status 1 or 0.
pub proc_init-Ends :
    (signal status k left : ℕ) (env : Env) (past : List Call)
    → Ends signal status
    → Idle k env (registered past)
    → env.answer (after_rounds k (registered past)) (sleep 5) ≡ pos signal
    → (proc_init k env past ≡ (spent, after_rounds k (registered past)))
      × (proc_init (k + suc left) env past
          ≡ (exited status, sleep 5 ∷ after_rounds k (registered past)))
unfolding proc_init work
proc_init-Ends signal status k left env past s i e = (
  work-Idle k 0 k env (registered past) i (omega arith),
  work-Idle k (suc left) (k + suc left) env (registered past) i refl
      ∙ work-Ends signal status left env _ s e,
)
