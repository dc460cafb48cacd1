-- ===== src/Server/Drained.antt =====
-- That the workers come to rest, and what they have done then.
use cci_daemon.Base.{
  ℕ, zero, suc, ◌+◌, ◌*◌, ◌≤◌, ◌<◌, ◌≡◌, ◌⊎◌, refl, ap, ◌∙◌, arith, Bool, false, inl, inr, true,
  ◌||◌, Option, none, some, List, [], ◌∷◌, ◌++◌, length,
}
use cci_daemon.ThreadPool.{Client, proc_thread_pool}
use cci_daemon.ThreadPool.Stop.{nulls}
use cci_daemon.Server.{
  Stage, inside, returned, names, System, new_system, Move, admitted, readable, taken, served,
  left_behind, elsewhere, Moves,
}
use cci_daemon.Server.Handling.{Handler}
use cci_daemon.Server.Places.{holding, queued}
use cci_daemon.Server.Laws.{Moves-made, Moves-pool}
use cci_daemon.Server.Work.{
  is_work, Works, rested, then_work, Works-Moves, Known, Moves-Known, some_of_made,
}

-- The moves that are left to a worker, and to all of them with the queue.
abbrev pub left_to : Stage → ℕ
left_to inside = 2
left_to (returned result) = 1

abbrev pub load : List (Client × Stage) → ℕ
load [] = 0
load ((c, s) ∷ ws) = left_to s + load ws

load-split :
    (c : Client) (s : Stage) (before after : List (Client × Stage))
    → load (before ++ (c, s) ∷ after) ≡ left_to s + load (before ++ after)
load-split c s [] after = refl
load-split c s ((d, t) ∷ before) after = omega (arith, load-split c s before after)

pub load-length : (ws : List (Client × Stage)) → load ws ≤ 2 * length ws
load-length [] = omega arith
load-length ((c, inside) ∷ ws) = omega (arith, load-length ws)
load-length ((c, returned r) ∷ ws) = omega (arith, load-length ws)

module _ (h : Handler) (lossy : Bool) where
  -- What work leaves: less to do, the same number of threads, and no new null pointer.
  record Worked (s t : System h) (n : ℕ) : Type 0 where
    less : n + (3 * length t.pool.queue + load t.workers) ≡ 3 * length s.pool.queue + load s.workers
    threads : t.pool.active_threads ≡ s.pool.active_threads
    asked : nulls s.pool.queue ≡ 0 → nulls t.pool.queue ≡ 0

  work-less :
      (s t : System h) (move : Move h lossy s t) → is_work h lossy move ≡ true → Worked s t 1
  work-less s _ (admitted c hostname activated peer_known accepted e) w = absurd (cc)
  work-less s _ (readable c x accepted e r l) w = absurd (cc)
  work-less s _ (elsewhere q step b e) w = absurd (cc)
  work-less s _ (taken left c rest e f) w = record {
    less = omega (arith, ap length f);
    threads = refl;
    asked = λ z. omega (arith, ap nulls f);
  }
  work-less s _ (served before after c x registers chunks w e l) q = record {
    less = omega (
      arith,
      ap load w,
      load-split c inside before after,
      load-split c (returned (h.process_input registers chunks x).1) before after,
    );
    threads = refl;
    asked = λ z. z;
  }
  work-less s _ (left_behind before after c x result client_addr w e) q = record {
    less = omega (arith, ap load w, load-split c (returned result) before after);
    threads = refl;
    asked = λ z. z;
  }

  Works-less : (s t : System h) (n : ℕ) → Works h lossy s n t → Worked s t n
  Works-less s _ _ rested = record { less = omega arith; threads = refl; asked = λ z. z }
  Works-less s u _ (then_work n t _ works move e) =
      let a = Works-less s t n works in
      let b = work-less t u move e in
      record {
        less = omega (arith, a.less, b.less);
        threads = b.threads ∙ a.threads;
        asked = λ z. b.asked (a.asked z);
      }

  -- A worker that can go on, or nothing is left to do.
  abbrev pub Goes : System h → Type 0
  Goes s = (t : System h) × (move : Move h lossy s t) × (is_work h lossy move ≡ true)

  take_next :
      (s : System h) (q : List (Option Client)) (n : ℕ)
      → s.pool.queue ≡ q
      → s.pool.waiting ≡ n
      → nulls q ≡ 0
      → 0 < n
      → Goes s ⊎ (q ≡ [])
  take_next s [] n e f z p = inr refl
  take_next s (none ∷ q) n e f z p = absurd (omega arith)
  take_next s (some c ∷ q) zero e f z p = absurd (omega arith)
  take_next s (some c ∷ q) (suc left) e f z p = inl (_, taken left c q f e, refl)

  go_on :
      (s : System h) (ws : List (Client × Stage))
      → s.workers ≡ ws
      → Known h lossy s.clients (names ws)
      → Goes s ⊎ (ws ≡ [])
  go_on s [] e k = inr refl
  go_on s ((c, inside) ∷ ws) e (m, k) =
      let (x, at) = some_of_made h lossy (s.clients c) m in
      inl (_, served [] ws c x true [] e at refl, refl)
  go_on s ((c, returned result) ∷ ws) e (m, k) =
      let (x, at) = some_of_made h lossy (s.clients c) m in
      inl (_, left_behind [] ws c x result [] e at, refl)

  pub Works-end :
      (s t : System h) (n : ℕ)
      → Moves h lossy (new_system h proc_thread_pool) s
      → 0 < s.pool.active_threads
      → nulls s.pool.queue ≡ 0
      → Works h lossy s n t
      → (n ≤ 3 * length s.pool.queue + 2 * length s.workers)
        × (Goes t ⊎ ((t.pool.queue ≡ []) × (t.workers ≡ [])))
  Works-end s t n moves some_thread asked works =
      let a = Works-less s t n works in
      let there = Works-Moves h lossy (new_system h proc_thread_pool) s t n moves works in
      let known = Moves-Known h lossy t there in
      let counted = (Moves-pool h lossy t there).1 in
      (
        omega (arith, a.less, load-length s.workers),
        elim (go_on t t.workers refl known) [
          | inl g ↦ inl g
          | inr idle ↦
              elim (take_next t t.pool.queue t.pool.waiting refl refl (a.asked asked)
                (omega (arith, counted, a.threads, ap length idle))) [
                  | inl g ↦ inl g
                  | inr empty ↦ inr (empty, idle)
                ]
        ],
      )

  -- With nothing left to do each connection that was made is registered or deleted.
  pub idle-Placed :
      (t : System h)
      → Moves h lossy (new_system h proc_thread_pool) t
      → lossy ≡ false
      → t.pool.queue ≡ []
      → t.workers ≡ []
      → (c : Client) (x : h.Connection) → t.clients c ≡ some x
      → h.registered x || h.deleted x ≡ true
  idle-Placed t moves l q w c x at =
      let p = Moves-made h lossy t moves c (some x) at in
      ground (arith, p, ap (queued c) q, ap (holding c) w)
