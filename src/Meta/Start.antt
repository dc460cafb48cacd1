-- ===== src/Meta/Start.antt =====
-- How the meta daemon starts.
use cci_daemon.Base.{
  ℕ, zero, suc, ◌≡◌, inl, inr, refl, List, ◌∷◌, if◌then◌else◌, codes, ℤ, pos, negsuc, minus_one,
  int_eq, Bool-cases,
}
use cci_daemon.Host.{
  Call, fork, setsid, umask, chdir, Env, M, pure, exit, bind_outcome, ◌>>=◌, call,
}
use cci_daemon.Daemonize.{
  DaemonProc, after_fork, daemonized, fork_no_session_leader, make_session_leader,
}
use cci_daemon.Daemonize.Steps.{clear_file_create_mask, cd_to_root, go_to_root}
use cci_daemon.Meta.{
  configure_streams, init_step, init_loop, configure_init, configure_environment, proc_init,
  daemonize, is_daemonized,
}

-- The child of a fork goes on with the program, an error leaves it out, and the parent's process ends.
abbrev pub in_child : M (Unit {0}) → ℤ → M (Unit {0})
in_child m (pos zero) = m
in_child m (negsuc zero) = pure tt
in_child m _ = exit 0

abbrev pub in_session : ℤ → M (Unit {0}) → M (Unit {0})
in_session r m = if int_eq r minus_one then pure tt else m

-- The two forks and the session in a straight line.
unfoldable pub init_straight : M (Unit {0})
init_straight = do
  first ← call fork
  in_child
      (do
        leader ← call setsid
        in_session leader (do second ← call fork; in_child (pure tt) second))
      first

abbrev next_round : ℕ → DaemonProc → M (Unit {0})
next_round fuel next = if is_daemonized next then pure tt else init_loop fuel next

module _ (fuel : ℕ) (env : Env) where
  after_second :
      (r : ℤ) (past : List Call)
      → bind_outcome {A = DaemonProc} (after_fork daemonized r env past) (next_round (suc fuel)) env
        ≡ in_child (pure tt) r env past
  unfolding init_loop
  after_second (pos zero) past = refl
  after_second (pos (suc n)) past = refl
  after_second (negsuc zero) past = refl
  after_second (negsuc (suc n)) past = refl

  loop_second :
      (past : List Call)
      → init_loop (suc (suc fuel)) fork_no_session_leader env past
        ≡ in_child (pure tt) (env.answer past fork) env (fork ∷ past)
  unfolding init_loop init_step
  loop_second past = after_second (env.answer past fork) (fork ∷ past)

  abbrev leader_straight : M (Unit {0})
  leader_straight = do
    leader ← call setsid
    in_session leader (do second ← call fork; in_child (pure tt) second)

  loop_leader :
      (past : List Call)
      → init_loop (suc (suc (suc fuel))) make_session_leader env past ≡ leader_straight env past
  unfolding init_loop init_step
  loop_leader past = elim (Bool-cases (int_eq (env.answer past setsid) minus_one)) [
    | inl e ↦ rw e refl
    | inr e ↦ rw e (loop_second (setsid ∷ past))
  ]

  after_first :
      (r : ℤ) (past : List Call)
      → bind_outcome {A = DaemonProc}
          (after_fork make_session_leader r env past)
          (next_round (suc (suc (suc fuel))))
          env
        ≡ in_child leader_straight r env past
  unfolding init_loop
  after_first (pos zero) past = loop_leader past
  after_first (pos (suc n)) past = refl
  after_first (negsuc zero) past = refl
  after_first (negsuc (suc n)) past = refl

-- Four rounds are enough for the loop of `configure_init`: then it does, on every system, what the two forks and
-- the new session do in a straight line, each error leaving out the rest.
pub configure_init-straight :
    (fuel : ℕ) (env : Env) (past : List Call)
    → configure_init (suc (suc (suc (suc fuel)))) env past ≡ init_straight env past
unfolding configure_init init_straight init_loop init_step
configure_init-straight fuel env past = after_first fuel env (env.answer past fork) (fork ∷ past)

-- Where the first fork fails the meta daemon goes on all the same: with the mask cleared and in the root directory
-- it registers its signals and works in the foreground, in the session that it was started from.
pub daemonize_foreground :
    (fuel rounds : ℕ) (env : Env) (past : List Call)
    → env.answer (umask 0 ∷ past) fork ≡ minus_one
    → daemonize (suc (suc fuel)) rounds env past
      ≡ proc_init rounds env (chdir (codes "/") ∷ fork ∷ umask 0 ∷ past)
unfolding daemonize configure_streams configure_init configure_environment init_loop init_step
    clear_file_create_mask cd_to_root go_to_root
daemonize_foreground fuel rounds env past e = rw e refl
