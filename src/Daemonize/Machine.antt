-- ===== src/Daemonize/Machine.antt =====
-- The state machine of `daemonize_` against straight-line code.
use cci_daemon.Base.{
  ℕ, zero, suc, ◌+◌, ◌-◌, ◌≡◌, ◌≤◌, inl, inr, refl, true, false, List, ◌∷◌, arith, if◌then◌else◌, ℤ,
  pos, negsuc, minus_one, int_eq, Bool-cases, codes,
}
use cci_daemon.Host.{
  Call, fork, setsid, umask, chdir, Env, returned, spent, M, pure, exit, ◌>>=◌, ◌>>◌, call, close,
  sysconf_open_max,
}
use cci_daemon.Daemonize.{
  DaemonProc, fork_background_proc, fork_no_session_leader, make_session_leader,
  clear_file_create_mask, change_to_root_dir, close_all_open_files, reopen_streams_dev_null,
  daemonized, no_chdir, no_close_files, no_reopen_std_fds, no_umask_0, has_flag, after_fork,
  close_from, open_max, close_all, reopen_streams, daemonize_step, daemonize_loop, daemonize_,
}

-- `return ( dp != dp_error ? 0 : -1 )` where the machine has stopped.
abbrev pub result : DaemonProc → ℤ
result daemonized = pos 0
result _ = minus_one

-- The steps in a row: `-1` at the first failure of a call that the machine looks at. `chdir` is none
-- of these.
unfoldable pub straight_reopen : ℕ → M ℤ
straight_reopen flags = do
  dp ← (if has_flag flags no_reopen_std_fds then pure daemonized else reopen_streams)
  pure (result dp)

unfoldable pub straight_close : ℕ → M ℤ
straight_close flags = do close_all; straight_reopen flags

unfoldable pub straight_chdir : ℕ → M ℤ
straight_chdir flags =
    if has_flag flags no_chdir
    then straight_close flags
    else do call (chdir (codes "/")); straight_close flags

unfoldable pub straight_umask : ℕ → M ℤ
straight_umask flags =
    if has_flag flags no_umask_0
    then straight_chdir flags
    else do call (umask 0); straight_chdir flags

abbrev pub child : M ℤ → ℤ → M ℤ
child next (negsuc zero) = pure minus_one
child next (pos zero) = next
child next _ = exit 0

unfoldable pub straight_second : ℕ → M ℤ
straight_second flags = do second ← call fork; child (straight_umask flags) second

unfoldable pub straight_session : ℕ → M ℤ
straight_session flags = do
  session ← call setsid
  if int_eq session minus_one then pure minus_one else straight_second flags

unfoldable pub daemonize_straight : ℕ → M ℤ
daemonize_straight flags = do first ← call fork; child (straight_session flags) first

close_from_returns :
    (rounds fd : ℕ) (env : Env) (past : List Call)
    → (after : List Call) × (close_from rounds fd env past ≡ (returned tt, after))
unfolding close_from
close_from_returns zero fd env past = (past, refl)
close_from_returns (suc rounds) fd env past =
    close_from_returns rounds (fd + 1) env (close fd ∷ past)

pub close_all_returns :
    (env : Env) (past : List Call)
    → (after : List Call) × (close_all env past ≡ (returned tt, after))
unfolding close_all
close_all_returns env past =
    close_from_returns (open_max (env.answer past sysconf_open_max)) 0 env (sysconf_open_max ∷ past)

-- A stage at fuel `n` is straight-line code if the next one is.
abbrev Runs : ℕ → ℕ → Env → DaemonProc → M ℤ → Type 0
Runs n flags env dp k = (past : List Call) → daemonize_loop n flags dp env past ≡ k env past

module _ (flags n : ℕ) (env : Env) where
  loop-reopen : Runs (suc (suc n)) flags env reopen_streams_dev_null (straight_reopen flags)
  unfolding daemonize_loop daemonize_step reopen_streams straight_reopen
  loop-reopen past = ground arith

  loop-close :
      has_flag flags no_close_files ≡ false
      → Runs n flags env reopen_streams_dev_null (straight_reopen flags)
      → Runs (suc n) flags env close_all_open_files (straight_close flags)
  unfolding daemonize_loop daemonize_step straight_close
  loop-close closes next past =
      let (after, e) = close_all_returns env past in rw closes (rw e (next after))

  loop-chdir :
      Runs n flags env close_all_open_files (straight_close flags)
      → Runs (suc n) flags env change_to_root_dir (straight_chdir flags)
  unfolding daemonize_loop daemonize_step straight_chdir
  loop-chdir next past = elim (Bool-cases (has_flag flags no_chdir)) [
    | inl d ↦ rw d (next past)
    | inr d ↦ rw d (next (chdir (codes "/") ∷ past))
  ]

  loop-umask :
      Runs n flags env change_to_root_dir (straight_chdir flags)
      → Runs (suc n) flags env clear_file_create_mask (straight_umask flags)
  unfolding daemonize_loop daemonize_step straight_umask
  loop-umask next past = elim (Bool-cases (has_flag flags no_umask_0)) [
    | inl d ↦ rw d (next past)
    | inr d ↦ rw d (next (umask 0 ∷ past))
  ]

  after_fork-child :
      (next : DaemonProc) (k : M ℤ) (r : ℤ) (past : List Call)
      → daemonize_loop (suc n) flags next env past ≡ k env past
      → (do dp ← after_fork next r; daemonize_loop (suc n) flags dp) env past ≡ child k r env past
  unfolding daemonize_loop
  after_fork-child next k (pos zero) past e = e
  after_fork-child next k (negsuc zero) past e = refl
  after_fork-child next k _ past e = refl

  loop-second :
      Runs (suc n) flags env clear_file_create_mask (straight_umask flags)
      → Runs (suc (suc n)) flags env fork_no_session_leader (straight_second flags)
  unfolding daemonize_loop daemonize_step straight_second
  loop-second next past =
      after_fork-child clear_file_create_mask (straight_umask flags) (env.answer past fork)
        (fork ∷ past) (next (fork ∷ past))

  loop-session :
      Runs (suc n) flags env fork_no_session_leader (straight_second flags)
      → Runs (suc (suc n)) flags env make_session_leader (straight_session flags)
  unfolding daemonize_loop daemonize_step straight_session
  loop-session next past = elim (Bool-cases (int_eq (env.answer past setsid) minus_one)) [
    | inl e ↦ rw e refl
    | inr e ↦ rw e (next (setsid ∷ past))
  ]

  loop-first :
      Runs (suc n) flags env make_session_leader (straight_session flags)
      → Runs (suc (suc n)) flags env fork_background_proc (daemonize_straight flags)
  unfolding daemonize_loop daemonize_step daemonize_straight
  loop-first next past =
      after_fork-child make_session_leader (straight_session flags) (env.answer past fork)
        (fork ∷ past) (next (fork ∷ past))

-- Where files are to be closed, the state machine of `daemonize_` is straight-line code: with fuel for
-- eight rounds or more it ends as that does, with the same calls in the same order, for every
-- behaviour of the system.
pub daemonize-straight :
    (flags fuel : ℕ) (env : Env) (past : List Call)
    → has_flag flags no_close_files ≡ false
    → 8 ≤ fuel
    → daemonize_ fuel flags env past ≡ daemonize_straight flags env past
unfolding daemonize_
daemonize-straight flags fuel env past closes enough =
    let m = fuel - 8 in
    let e : fuel ≡ suc (suc (suc (suc (suc (suc (suc (suc m))))))) = omega arith in
    rw e (
      loop-first flags _ env
        (loop-session flags _ env (
          loop-second flags _ env (
            loop-umask flags _ env
              (loop-chdir flags _ env (loop-close flags _ env closes (loop-reopen flags m env))))))
        past)

-- The daemon's process, as it goes on when each call that the machine looks at succeeds.
pub record Forks (env : Env) (past : List Call) : Type 0 where
  pub first : env.answer past fork ≡ pos 0
  pub session : int_eq (env.answer (fork ∷ past) setsid) minus_one ≡ false
  pub second : env.answer (setsid ∷ fork ∷ past) fork ≡ pos 0

-- With the flag that keeps files open, the round for open files changes nothing and never leaves its
-- state: whatever the fuel, it is spent.
close_state_spins :
    (flags n : ℕ) (env : Env) (past : List Call)
    → has_flag flags no_close_files ≡ true
    → daemonize_loop n flags close_all_open_files env past ≡ (spent, past)
unfolding daemonize_loop daemonize_step
close_state_spins flags zero env past keep = refl
close_state_spins flags (suc n) env past keep = rw keep (close_state_spins flags n env past keep)

chdir_state_spins :
    (flags n : ℕ) (env : Env) (past : List Call)
    → has_flag flags no_close_files ≡ true
    → (daemonize_loop n flags change_to_root_dir env past).0 ≡ spent
unfolding daemonize_loop daemonize_step
chdir_state_spins flags zero env past keep = refl
chdir_state_spins flags (suc n) env past keep = elim (Bool-cases (has_flag flags no_chdir)) [
  | inl d ↦ rw d (rw (close_state_spins flags n env past keep))
  | inr d ↦ rw d (rw (close_state_spins flags n env (chdir (codes "/") ∷ past) keep))
]

umask_state_spins :
    (flags n : ℕ) (env : Env) (past : List Call)
    → has_flag flags no_close_files ≡ true
    → (daemonize_loop n flags clear_file_create_mask env past).0 ≡ spent
unfolding daemonize_loop daemonize_step
umask_state_spins flags zero env past keep = refl
umask_state_spins flags (suc n) env past keep = elim (Bool-cases (has_flag flags no_umask_0)) [
  | inl d ↦ rw d (chdir_state_spins flags n env past keep)
  | inr d ↦ rw d (chdir_state_spins flags n env (umask 0 ∷ past) keep)
]

second_state_spins :
    (flags n : ℕ) (env : Env) (past : List Call)
    → has_flag flags no_close_files ≡ true
    → env.answer past fork ≡ pos 0
    → (daemonize_loop n flags fork_no_session_leader env past).0 ≡ spent
unfolding daemonize_loop daemonize_step
second_state_spins flags zero env past keep f = refl
second_state_spins flags (suc n) env past keep f =
    rw f (umask_state_spins flags n env (fork ∷ past) keep)

session_state_spins :
    (flags n : ℕ) (env : Env) (past : List Call)
    → has_flag flags no_close_files ≡ true
    → int_eq (env.answer past setsid) minus_one ≡ false
    → env.answer (setsid ∷ past) fork ≡ pos 0
    → (daemonize_loop n flags make_session_leader env past).0 ≡ spent
unfolding daemonize_loop daemonize_step
session_state_spins flags zero env past keep s f = refl
session_state_spins flags (suc n) env past keep s f =
    rw s (second_state_spins flags n env (setsid ∷ past) keep f)

-- With `bd_no_close_files` set the daemon's process never comes out of `daemonize_`: if both forks
-- make it the child and the session is its own, the loop outlasts any fuel.
pub daemonize_spins :
    (flags fuel : ℕ) (env : Env) (past : List Call)
    → has_flag flags no_close_files ≡ true
    → Forks env past
    → (daemonize_ fuel flags env past).0 ≡ spent
unfolding daemonize_ daemonize_loop daemonize_step
daemonize_spins flags zero env past keep f = refl
daemonize_spins flags (suc n) env past keep f =
    rw f.first (session_state_spins flags n env (fork ∷ past) keep f.session f.second)
