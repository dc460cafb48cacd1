-- ===== src/ThreadPool/Tests.antt =====
-- Runs of a small pool.
use cci_daemon.Base.{◌+◌, ◌*◌, ◌≤◌, ◌≡◌, ◌⊎◌, refl, none, some, [], ◌∷◌, length}
use cci_daemon.ThreadPool.{Pool, Phase, sending, stopped, proc_thread_pool, svc_enter, send, start}
use cci_daemon.ThreadPool.Stop.{Schedule, over, step, Drain, on_stop, nulls, stop_ends, stop_misses}

-- One thread, which waits, and the handler 7 in the queue.
abbrev one : Pool
one = record {
  active_threads = 1;
  created = 0;
  waiting = 1;
  busy = [];
  queue = some 7 ∷ [];
  served = [];
  phase = Phase.running;
}

unfoldable pub begun : Pool
unfolding proc_thread_pool
begun = svc_enter (start proc_thread_pool 2) 1

-- The null pointer is enqueued behind the handler.
abbrev asked : Pool
asked = record one { queue = some 7 ∷ none ∷ []; phase = sending 0 }

stop_ends_example :
    (1 ≤ 4 * one.active_threads + 2 * length one.queue + 2)
    × (((r : Pool) × Drain asked r)
        ⊎ ((asked.phase ≡ stopped) × (asked.active_threads ≡ 0) × (nulls asked.queue ≡ 0)))
stop_ends_example =
    stop_ends one asked 1 refl refl refl (step 0 _ _ _ (on_stop _ (send 0 refl)) (over _))

stop_misses_example :
    (p q : Pool) × Schedule 3 (start proc_thread_pool 25) p
    × (p.phase ≡ stopped)
    × (p.created ≡ 25)
    × (p.waiting ≡ 0)
    × Schedule 25 p q
    × (q.phase ≡ stopped)
    × (q.waiting ≡ 25)
    × (q.queue ≡ [])
stop_misses_example = stop_misses 25
