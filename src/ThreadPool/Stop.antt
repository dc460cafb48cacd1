-- ===== src/ThreadPool/Stop.antt =====
-- When `stop` ends, and which workers it ends.
use cci_daemon.Base.{
  ℕ, zero, suc, ◌+◌, ◌*◌, ◌<◌, ◌≤◌, ◌≡◌, ◌≢◌, ◌⊎◌, inl, inr, refl, ap, Option, none, some, List, [],
  ◌∷◌, ◌++◌, length, length-append, arith, pos,
}
use cci_daemon.ThreadPool.{
  Client, Phase, running, polling, stopped, sending, Pool, proc_thread_pool, start, svc_enter,
  Worker, cancelled, enter, got, serve, Stopper, stop, send, sent, ended, Step, activate, offer,
  worker, stopper, Steps, here, then_step,
}

-- `active_threads_` counts the workers that wait or serve.
abbrev pub IsCounted : Pool → Type 0
IsCounted p = p.active_threads ≡ p.waiting + length p.busy

length-split :
    (before after : List Client) (c : Client) (xs : List Client)
    → xs ≡ before ++ c ∷ after
    → length xs ≡ suc (length (before ++ after))
length-split before after c xs e =
    omega (arith, ap length e, length-append before (c ∷ after), length-append before after)

Worker-IsCounted : (p q : Pool) → Worker p q → IsCounted p → IsCounted q
Worker-IsCounted p _ (cancelled left e) c = c
Worker-IsCounted p _ (enter left e) c = omega arith
Worker-IsCounted p _ (got left none rest e f) c = omega arith
Worker-IsCounted p _ (got left (some x) rest e f) c = omega arith
Worker-IsCounted p _ (serve before after x r e) c =
    omega (arith, length-split before after x p.busy e)

Step-IsCounted : (p q : Pool) → Step p q → IsCounted p → IsCounted q
Step-IsCounted p _ (activate n) c = c
Step-IsCounted p _ (offer x) c = c
Step-IsCounted p q (worker _ w) c = Worker-IsCounted p q w c
Step-IsCounted p _ (stopper _ (stop e)) c = c
Step-IsCounted p _ (stopper _ (send n e)) c = c
Step-IsCounted p _ (stopper _ (sent e)) c = c
Step-IsCounted p _ (stopper _ (ended e f)) c = c

pub Steps-keep_count : (p q : Pool) → Steps p q → IsCounted p → IsCounted q
Steps-keep_count p _ (here _) c = c
Steps-keep_count p r (then_step _ q _ s t) c = Step-IsCounted q r t (Steps-keep_count p q s c)

-- In every state that a new pool reaches, the counter is the number of workers that wait or serve.
pub Steps-IsCounted : (q : Pool) → Steps proc_thread_pool q → IsCounted q
unfolding proc_thread_pool
Steps-IsCounted q steps = Steps-keep_count proc_thread_pool q steps refl

-- The null pointers in the queue, and those that `stop` has still to enqueue.
abbrev pub nulls : List (Option Client) → ℕ
nulls [] = 0
nulls (none ∷ q) = suc (nulls q)
nulls (some c ∷ q) = nulls q

abbrev pub owed : Phase → ℕ
owed (sending n) = n
owed _ = 0

nulls-append : (q r : List (Option Client)) → nulls (q ++ r) ≡ nulls q + nulls r
nulls-append [] r = omega arith
nulls-append (none ∷ q) r = omega (arith, nulls-append q r)
nulls-append (some c ∷ q) r = nulls-append q r

-- `stop` has read the counter, every thread had started by then, and no thread starts after it.
pub record Draining (p : Pool) : Type 0 where
  pub created : p.created ≡ 0
  pub counted : IsCounted p
  pub called : p.phase ≢ running
  pub balance : owed p.phase + nulls p.queue ≡ p.active_threads
  pub done : p.phase ≡ stopped → p.active_threads ≡ 0

-- The steps of the workers and of `stop` itself: no thread is made and no handler is offered.
pub data Drain (p : Pool) : Pool → Type 0 where
  worked : (q : Pool) → Worker p q → Drain p q
  on_stop : (q : Pool) → Stopper p q → Drain p q

Drain-Draining : (p q : Pool) → Drain p q → Draining p → Draining q
Drain-Draining p _ (worked _ (cancelled left e)) d = absurd (omega (arith, d.created))
Drain-Draining p _ (worked _ (enter left e)) d = absurd (omega (arith, d.created))
Drain-Draining p _ (worked _ (got left none rest e f)) d =
    ground (arith, d.created, d.counted, d.called, d.balance, d.done)
Drain-Draining p _ (worked _ (got left (some x) rest e f)) d =
    ground (arith, d.created, d.counted, d.called, d.balance, d.done)
Drain-Draining p _ (worked _ (serve before after x r e)) d = ground (
  arith,
  d.created,
  Worker-IsCounted p _ (serve before after x r e) d.counted,
  d.called,
  d.balance,
  d.done,
)
Drain-Draining p _ (on_stop _ (stop e)) d = absurd (d.called e)
Drain-Draining p _ (on_stop _ (send n e)) d =
    ground
      (arith, nulls-append p.queue (none ∷ []), d.created, d.counted, d.called, d.balance, d.done)
Drain-Draining p _ (on_stop _ (sent e)) d =
    ground (arith, d.created, d.counted, d.called, d.balance, d.done)
Drain-Draining p _ (on_stop _ (ended e f)) d =
    ground (arith, d.created, d.counted, d.called, d.balance, d.done)

-- Every step makes this smaller.
abbrev pub phase_left : Phase → ℕ
phase_left (sending n) = 3 * n + 2
phase_left polling = 1
phase_left stopped = 0
phase_left running = 0

abbrev pub work_left : Pool → ℕ
work_left p = 2 * length p.queue + length p.busy + phase_left p.phase

Drain-work_left : (p q : Pool) → Drain p q → Draining p → work_left q < work_left p
Drain-work_left p _ (worked _ (cancelled left e)) d = absurd (omega (arith, d.created))
Drain-work_left p _ (worked _ (enter left e)) d = absurd (omega (arith, d.created))
Drain-work_left p _ (worked _ (got left none rest e f)) d = omega (arith, ap length f)
Drain-work_left p _ (worked _ (got left (some x) rest e f)) d = omega (arith, ap length f)
Drain-work_left p _ (worked _ (serve before after x r e)) d =
    omega (arith, length-split before after x p.busy e)
Drain-work_left p _ (on_stop _ (stop e)) d = absurd (d.called e)
Drain-work_left p _ (on_stop _ (send n e)) d =
    omega (arith, ap phase_left e, length-append p.queue (none ∷ []))
Drain-work_left p _ (on_stop _ (sent e)) d = omega (arith, ap phase_left e)
Drain-work_left p _ (on_stop _ (ended e f)) d = omega (arith, ap phase_left e)

nulls-nonempty :
    (q : List (Option Client)) (n : ℕ)
    → nulls q ≡ suc n
    → (m : Option Client) × (r : List (Option Client)) × (q ≡ m ∷ r)
nulls-nonempty [] n e = absurd (omega arith)
nulls-nonempty (m ∷ r) n e = (m, r, refl)

-- While `stop` polls, a worker that is left can take a message or end the serving of one.
worker_can :
    (p : Pool) (n : ℕ)
    → Draining p
    → p.phase ≡ polling
    → p.active_threads ≡ suc n
    → (q : Pool) × Drain p q
worker_can p n d e a = go p.busy p.waiting refl refl
  where
    go : (busy : List Client) (w : ℕ) → p.busy ≡ busy → p.waiting ≡ w → (q : Pool) × Drain p q
    go (c ∷ cs) w b f = (_, worked _ (serve [] cs c (pos 0) b))
    go [] zero b f = absurd (omega (arith, d.counted, ap length b))
    go [] (suc w) b f =
        let (m, r, g) = nulls-nonempty p.queue n (omega (arith, d.balance, ap owed e)) in
        (_, worked _ (got w m r f g))

-- `stop` cannot get stuck: until it has returned, some step is possible.
pub stop_progress : (p : Pool) → Draining p → p.phase ≢ stopped → (q : Pool) × Drain p q
stop_progress p d n = go p.phase refl
  where
    poll : (a : ℕ) → p.phase ≡ polling → p.active_threads ≡ a → (q : Pool) × Drain p q
    poll zero e f = (_, on_stop _ (ended e f))
    poll (suc m) e f = worker_can p m d e f

    go : (ph : Phase) → p.phase ≡ ph → (q : Pool) × Drain p q
    go running e = absurd (d.called e)
    go (sending zero) e = (_, on_stop _ (sent e))
    go (sending (suc m)) e = (_, on_stop _ (send m e))
    go polling e = poll p.active_threads e refl
    go stopped e = absurd (n e)

-- A schedule of so many steps.
pub data Schedule : ℕ → Pool → Pool → Type 0 where
  over : (p : Pool) → Schedule 0 p p
  step : (n : ℕ) (p q r : Pool) → Drain p q → Schedule n q r → Schedule (suc n) p r

Schedule-Draining :
    (n : ℕ) (p q : Pool)
    → Schedule n p q
    → Draining p
    → Draining q × (n + work_left q ≤ work_left p)
Schedule-Draining _ p _ (over _) d = (d, omega arith)
Schedule-Draining _ p r (step n _ q _ s t) d =
    let (e, w) = Schedule-Draining n q r t (Drain-Draining p q s d) in
    (e, omega (arith, w, Drain-work_left p q s d))

-- What holds when `stop` begins: its caller is the first, and no worker is still to start.
pub stop-Draining :
    (p : Pool)
    → p.created ≡ 0
    → IsCounted p
    → nulls p.queue ≡ 0
    → Draining (record p { phase = sending p.active_threads })
stop-Draining p c k z = record {
  created = c;
  counted = k;
  called = λ e. cc;
  balance = omega (arith, z);
  done = λ e. cc;
}

-- If all threads have started when `stop` is called and no null pointer is queued, then every schedule
-- of the workers and of `stop` has at most 4 steps for each thread and 2 for each queued handler, and
-- two more; one that cannot go on has `stop` returned, no thread active and no null pointer left.
pub stop_ends :
    (p q : Pool) (n : ℕ)
    → p.created ≡ 0
    → IsCounted p
    → nulls p.queue ≡ 0
    → Schedule n (record p { phase = sending p.active_threads }) q
    → (n ≤ 4 * p.active_threads + 2 * length p.queue + 2)
      × (((r : Pool) × Drain q r)
          ⊎ ((q.phase ≡ stopped) × (q.active_threads ≡ 0) × (nulls q.queue ≡ 0)))
stop_ends p q n c k z s =
    let (d, w) = Schedule-Draining n _ q s (stop-Draining p c k z) in
    (omega (arith, w, k), finish d q.phase refl)
  where
    finish :
        Draining q
        → (ph : Phase) → q.phase ≡ ph
        → ((r : Pool) × Drain q r)
          ⊎ ((q.phase ≡ stopped) × (q.active_threads ≡ 0) × (nulls q.queue ≡ 0))
    finish d stopped e = inr (e, d.done e, omega (arith, d.balance, ap owed e, d.done e))
    finish d running e = absurd (d.called e)
    finish d (sending m) e = inl (stop_progress q d (λ f. cc))
    finish d polling e = inl (stop_progress q d (λ f. cc))

-- The threads that have been created start, one after the other.
all_enter :
    (k : ℕ) (p : Pool)
    → p.created ≡ k
    → (q : Pool) × Schedule k p q
      × (q.phase ≡ p.phase)
      × (q.waiting ≡ p.waiting + k)
      × (q.queue ≡ p.queue)
all_enter zero p e = (p, over p, refl, omega arith, refl)
all_enter (suc k) p e =
    let (q, t, f, g, h) = all_enter k (svc_enter p k) refl in
    (q, step k p _ q (worked _ (enter k e)) t, f, omega (arith, g), h)

-- `stop` misses the threads that have not started. `start` makes threads, as many as it is told, and no others are made:
-- then, on some schedule, `stop` is called and returns after three steps of its own with none of them having run,
-- and afterwards all of them run and come to wait on an empty queue.
pub stop_misses :
    (n : ℕ)
    → (p q : Pool) × Schedule 3 (start proc_thread_pool n) p
      × (p.phase ≡ stopped)
      × (p.created ≡ n)
      × (p.waiting ≡ 0)
      × Schedule n p q
      × (q.phase ≡ stopped)
      × (q.waiting ≡ n)
      × (q.queue ≡ [])
unfolding proc_thread_pool
stop_misses n =
    let p = record (start proc_thread_pool n) { phase = stopped } in
    let (q, t, f, g, h) = all_enter n p (omega arith) in
    (
      p,
      q,
      step 2 _ _ _ (on_stop _ (stop refl)) (
          step 1 _ _ _ (on_stop _ (sent refl))
            (step 0 _ _ _ (on_stop _ (ended refl refl)) (over _))),
      refl,
      omega arith,
      refl,
      t,
      f,
      omega (arith, g),
      h,
    )
