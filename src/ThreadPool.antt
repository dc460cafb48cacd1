-- ===== src/ThreadPool.antt =====
-- cci_daemon/src/procs/proc_ace_thread_pool.cpp: the workers of `proc_thread_pool`, its queue, and
-- `stop`. A worker is in one of four places: created and not yet behind its `proc_counter_guard`,
-- waiting in `getq`, serving a handler, or gone. The steps of the workers, of the thread in `stop` and of
-- the reactor's thread interleave in any order; `getq` waits for as long as the queue is empty.
pub mod Stop
mod Tests
use cci_daemon.Base.{
  ℕ, zero, suc, ◌+◌, ◌-◌, ◌≡◌, Bool, true, false, Option, none, some, List, [], ◌∷◌, ◌++◌,
  if◌then◌else◌, length, ℤ, pos, minus_one, int_eq,
}

-- A handler, by a number; `none` is the null pointer, by which `stop` asks a worker to end.
abbrev pub Client : Type 0
Client = ℕ

pub data Served : Type 0 where
  handle_input handle_close : Client → Served

-- Where the thread that calls `stop` is; `sending n` has `n` requests still to enqueue.
pub data Phase : Type 0 where
  running polling stopped : Phase
  sending : ℕ → Phase

pub record Pool : Type 0 where
  pub active_threads : ℕ
  pub created : ℕ
  pub waiting : ℕ
  pub busy : List Client
  pub queue : List (Option Client)
  pub served : List Served
  pub phase : Phase

unfoldable pub proc_thread_pool : Pool
proc_thread_pool = record {
  active_threads = 0;
  created = 0;
  waiting = 0;
  busy = [];
  queue = [];
  served = [];
  phase = running;
}

-- `activate` makes the threads; they run later.
abbrev pub start : Pool → ℕ → Pool
start p pool_size = record p { created = p.created + pool_size }

-- `putq` may refuse; the message is released then.
abbrev pub enqueue : Bool → Pool → Option Client → Pool × ℤ
enqueue accepted p handler =
    if accepted then (record p { queue = p.queue ++ handler ∷ [] }, pos 0) else (p, minus_one)

-- The start of `svc`, with a counter guard; `left` threads have not started yet.
abbrev pub svc_enter : Pool → ℕ → Pool
svc_enter p left = record p {
  created = left;
  waiting = p.waiting + 1;
  active_threads = p.active_threads + 1;
}

-- `getq` has given `handler`; a null pointer ends `svc`, and the guard counts down.
abbrev pub svc_got : Pool → ℕ → Option Client → List (Option Client) → Pool
svc_got p left none rest =
    let active_threads = p.active_threads - 1 in
    record p { waiting = left; queue = rest; active_threads = active_threads }
svc_got p left (some c) rest = record p { waiting = left; queue = rest; busy = c ∷ p.busy }

-- The handler's `handle_input` has returned `result`.
abbrev pub svc_served : Pool → List Client → Client → ℤ → Pool
svc_served p others c result =
    let served =
      if int_eq result minus_one
      then handle_close c ∷ handle_input c ∷ p.served
      else handle_input c ∷ p.served in
    record p { busy = others; waiting = p.waiting + 1; served = served }

pub data Worker (p : Pool) : Pool → Type 0 where
  cancelled : (left : ℕ) → p.created ≡ suc left → Worker p (record p { created = left })
  enter : (left : ℕ) → p.created ≡ suc left → Worker p (svc_enter p left)
  got :
      (left : ℕ) (handler : Option Client) (rest : List (Option Client))
      → p.waiting ≡ suc left
      → p.queue ≡ handler ∷ rest
      → Worker p (svc_got p left handler rest)
  serve :
      (before after : List Client) (c : Client) (result : ℤ)
      → p.busy ≡ before ++ c ∷ after
      → Worker p (svc_served p (before ++ after) c result)

-- `stop`: the counter is read once, so many null pointers are enqueued, and then it waits for 0.
pub data Stopper (p : Pool) : Pool → Type 0 where
  stop : p.phase ≡ running → Stopper p (record p { phase = sending p.active_threads })
  send :
      (n : ℕ)
      → p.phase ≡ sending (suc n)
      → Stopper p (record (enqueue true p none).0 { phase = sending n })
  sent : p.phase ≡ sending 0 → Stopper p (record p { phase = polling })
  ended : p.phase ≡ polling → p.active_threads ≡ 0 → Stopper p (record p { phase = stopped })

pub data Step (p : Pool) : Pool → Type 0 where
  activate : (pool_size : ℕ) → Step p (start p pool_size)
  offer : (c : Client) → Step p (enqueue true p (some c)).0
  worker : (q : Pool) → Worker p q → Step p q
  stopper : (q : Pool) → Stopper p q → Step p q

pub data Steps : Pool → Pool → Type 0 where
  here : (p : Pool) → Steps p p
  then_step : (p q r : Pool) → Steps p q → Step q r → Steps p r
