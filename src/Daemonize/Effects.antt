-- ===== src/Daemonize/Effects.antt =====
-- The calls that `daemonize_` makes on the way to success.
use cci_daemon.Base.{
  ℕ, zero, suc, ◌+◌, ◌≡◌, ◌≤◌, refl, sym, ap, ◌∙◌, inl, inr, false, List, ◌∷◌, if◌then◌else◌, ℤ,
  pos, negsuc, minus_one, int_eq, Bool-cases, codes,
}
use cci_daemon.Host.{
  Call, fork, setsid, sysconf_open_max, umask, close, chdir, open_file, dup2, Env, Outcome,
  returned,
}
use cci_daemon.Daemonize.Machine.{
  Forks, straight_reopen, straight_close, straight_chdir, straight_umask, straight_second,
  straight_session, daemonize_straight, child, daemonize-straight,
}
use cci_daemon.Daemonize.{
  no_chdir, no_close_files, no_reopen_std_fds, no_umask_0, has_flag, close_from, open_max,
  close_all, dev_null, reopen_streams, daemonize_,
}

-- The history behind `close_from`.
abbrev pub closed : ℕ → ℕ → List Call → List Call
closed zero fd past = past
closed (suc rounds) fd past = closed rounds (fd + 1) (close fd ∷ past)

close_from-closed :
    (rounds fd : ℕ) (env : Env) (past : List Call)
    → close_from rounds fd env past ≡ (returned tt, closed rounds fd past)
unfolding close_from
close_from-closed zero fd env past = refl
close_from-closed (suc rounds) fd env past = close_from-closed rounds (fd + 1) env (close fd ∷ past)

abbrev pub after_session : List Call → List Call
after_session past = fork ∷ setsid ∷ fork ∷ past

abbrev pub after_umask : ℕ → List Call → List Call
after_umask flags past = if has_flag flags no_umask_0 then past else umask 0 ∷ past

abbrev pub after_chdir : ℕ → List Call → List Call
after_chdir flags past = if has_flag flags no_chdir then past else chdir (codes "/") ∷ past

abbrev pub before_close : ℕ → List Call → List Call
before_close flags past = after_chdir flags (after_umask flags (after_session past))

unfoldable pub after_close : Env → List Call → List Call
after_close env past =
    closed (open_max (env.answer past sysconf_open_max)) 0 (sysconf_open_max ∷ past)

abbrev pub after_reopen : ℕ → List Call → List Call
after_reopen flags past =
    if has_flag flags no_reopen_std_fds
    then past
    else dup2 0 2 ∷ dup2 0 1 ∷ open_file dev_null ∷ close 0 ∷ past

-- The streams get the descriptors 0, 1 and 2.
pub record Reopens (env : Env) (past : List Call) : Type 0 where
  pub opened : env.answer (close 0 ∷ past) (open_file dev_null) ≡ pos 0
  pub out : env.answer (open_file dev_null ∷ close 0 ∷ past) (dup2 0 1) ≡ pos 1
  pub err : env.answer (dup2 0 1 ∷ open_file dev_null ∷ close 0 ∷ past) (dup2 0 2) ≡ pos 2

module _ (flags : ℕ) (env : Env) where
  reopen-calls :
      (past : List Call)
      → Reopens env past
      → straight_reopen flags env past ≡ (returned (pos 0), after_reopen flags past)
  unfolding straight_reopen reopen_streams
  reopen-calls past r = elim (Bool-cases (has_flag flags no_reopen_std_fds)) [
    | inl e ↦ rw e refl
    | inr e ↦ rw e (rw (r.opened, r.out, r.err) refl)
  ]

  close-calls :
      (past : List Call)
      → Reopens env (after_close env past)
      → straight_close flags env past
        ≡ (returned (pos 0), after_reopen flags (after_close env past))
  unfolding straight_close close_all after_close
  close-calls past r = rw (close_from-closed _ 0 env (sysconf_open_max ∷ past)) (reopen-calls _ r)

  chdir-calls :
      (past : List Call)
      → straight_chdir flags env past ≡ straight_close flags env (after_chdir flags past)
  unfolding straight_chdir
  chdir-calls past = elim (Bool-cases (has_flag flags no_chdir)) [
    | inl e ↦ rw e refl
    | inr e ↦ rw e refl
  ]

  umask-calls :
      (past : List Call)
      → straight_umask flags env past ≡ straight_chdir flags env (after_umask flags past)
  unfolding straight_umask
  umask-calls past = elim (Bool-cases (has_flag flags no_umask_0)) [
    | inl e ↦ rw e refl
    | inr e ↦ rw e refl
  ]

  fork-calls :
      (past : List Call)
      → Forks env past
      → daemonize_straight flags env past ≡ straight_umask flags env (after_session past)
  unfolding daemonize_straight straight_session straight_second
  fork-calls past f = rw f.first (rw f.session (rw f.second refl))

  -- Where files are to be closed, both forks make the child, the session is its own and the streams get
  -- the descriptors 0, 1 and 2, `daemonize_` returns 0, and the calls it has made are: fork, setsid,
  -- fork, umask and chdir unless their flags are set, close of every descriptor below the limit, and the
  -- four calls that reopen the streams unless their flag is set. The answer of chdir does not matter.
  pub daemonize-calls :
      (fuel : ℕ) (past : List Call)
      → has_flag flags no_close_files ≡ false
      → 8 ≤ fuel
      → Forks env past
      → Reopens env (after_close env (before_close flags past))
      → daemonize_ fuel flags env past
        ≡ (returned (pos 0), after_reopen flags (after_close env (before_close flags past)))
  daemonize-calls fuel past closes enough f r =
      daemonize-straight flags fuel env past closes enough
      ∙ fork-calls past f
      ∙ umask-calls _
      ∙ chdir-calls _
      ∙ close-calls _ r

  second_ok :
      (past : List Call)
      → (straight_second flags env past).0 ≡ returned (pos 0)
      → env.answer past fork ≡ pos 0
  unfolding straight_second
  second_ok past = go (env.answer past fork)
    where
      go :
          (r : ℤ)
          → (child (straight_umask flags) r env (fork ∷ past)).0 ≡ returned (pos 0)
          → r ≡ pos 0
      go (pos zero) e = refl
      go (negsuc zero) e = cc
      go _ e = cc

  session_ok :
      (past : List Call)
      → (straight_session flags env past).0 ≡ returned (pos 0)
      → (int_eq (env.answer past setsid) minus_one ≡ false)
        × (env.answer (setsid ∷ past) fork ≡ pos 0)
  unfolding straight_session
  session_ok past = elim (Bool-cases (int_eq (env.answer past setsid) minus_one)) [
    | inl e ↦ rw e (λ h. cc)
    | inr e ↦ rw e (λ h. (refl, second_ok (setsid ∷ past) h))
  ]

  straight_ok :
      (past : List Call) → (daemonize_straight flags env past).0 ≡ returned (pos 0) → Forks env past
  unfolding daemonize_straight
  straight_ok past = go (env.answer past fork) refl
    where
      go :
          (r : ℤ)
          → env.answer past fork ≡ r
          → (child (straight_session flags) r env (fork ∷ past)).0 ≡ returned (pos 0)
          → Forks env past
      go (pos zero) q e =
          let (s, f) = session_ok (fork ∷ past) e in record { first = q; session = s; second = f }
      go (negsuc zero) q e = cc
      go _ q e = cc

  -- Where files are to be closed and fuel is 8 or more: if `daemonize_` returns 0 in a process, that process is the child of a fork made by the child of a
  -- first fork after it had become a session leader: so it leads no session and has no terminal.
  pub daemonize-Forks :
      (fuel : ℕ) (past : List Call)
      → has_flag flags no_close_files ≡ false
      → 8 ≤ fuel
      → (daemonize_ fuel flags env past).0 ≡ returned (pos 0)
      → Forks env past
  daemonize-Forks fuel past closes enough h = straight_ok past (
      ap (λ (r : Outcome ℤ × List Call). r.0)
        (sym (daemonize-straight flags fuel env past closes enough))
      ∙ h)
