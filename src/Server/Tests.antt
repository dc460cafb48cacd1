-- ===== src/Server/Tests.antt =====
-- Runs of a small server.
use cci_daemon.Base.{
  Bool, ◌*◌, ◌≤◌, ◌⊎◌, ◌||◌, arith, ◌+◌, ◌≡◌, ◌&&◌, refl, true, false, some, [], codes, length, pos,
}
use cci_daemon.Handler.Lifecycle.{Connection, open_handler, new_connection}
use cci_daemon.Manager.Lifecycle
use cci_daemon.ThreadPool.{proc_thread_pool, Steps, activate, worker, enter}
use cci_daemon.Server.{
  inside, System, new_system, admitted, readable, taken, elsewhere, served, left_behind, Moves,
  here, then_move,
}
use cci_daemon.Server.Handling.{Handler}
use cci_daemon.Server.Dispatch.{dispatch_handler, admit}
use cci_daemon.Server.Manager.{manager_handler}
use cci_daemon.Server.Manager
use cci_daemon.Server.Places.{holding, queued}
use cci_daemon.Server.Work.{Works, rested, then_work}
use cci_daemon.Server.Drained.{Goes}
use cci_daemon.Server.Exclusive.{
  workers_rest, worker_alone, manager_worker_alone, connection_kept, server-Steps,
}

record Run (h : Handler) (lossy : Bool) : Type 0 where
  last : System h
  reach : Moves h lossy (new_system h proc_thread_pool) last

-- Two threads start, the connection 5 is made and its peer sends something, and a worker takes it.
unfoldable serving : (lossy : Bool) → Run dispatch_handler lossy
unfolding new_system proc_thread_pool admit open_handler new_connection
serving lossy = record {
  last = _;
  reach =
      then_move _ _
        (then_move _ _
          (then_move _ _
            (then_move _ _ (then_move _ _ here (elsewhere _ (activate 2) refl refl))
              (elsewhere _ (worker _ (enter 1 refl)) refl refl))
            (admitted 5 (codes "host") (pos 0) true true refl))
          (readable 5 _ true refl refl refl))
        (taken 0 5 [] refl refl);
}

worker_alone_example :
    (x : Connection) × ((serving true).last.clients 5 ≡ some x)
    × (x.registered ≡ false)
    × (x.deleted ≡ false)
    × (queued 5 (serving true).last.pool.queue ≡ 0)
    × (holding 5 [] ≡ 0)
unfolding serving
worker_alone_example =
    worker_alone (serving true).last (serving true).reach [] [] 5 inside refl refl

-- The reactor has it, and a worker waits.
unfoldable listening : Run dispatch_handler false
unfolding new_system proc_thread_pool
listening = record {
  last = _;
  reach =
      then_move _ _
        (then_move _ _ (then_move _ _ here (elsewhere _ (activate 1) refl refl))
          (elsewhere _ (worker _ (enter 0 refl)) refl refl))
        (admitted 7 (codes "host") (pos 0) true true refl);
}

connection_kept_example :
    (queued 7 listening.last.pool.queue + holding 7 listening.last.workers ≡ 0)
    × (true && false ≡ false)
unfolding listening admit open_handler new_connection
connection_kept_example = connection_kept listening.last 7 _ listening.reach refl

server-Steps_example :
    Steps proc_thread_pool (serving true).last.pool
    × ((serving true).last.pool.active_threads
        ≡ (serving true).last.pool.waiting + length (serving true).last.workers)
server-Steps_example = server-Steps (serving true).last (serving true).reach

unfoldable manager_serving : Run manager_handler true
unfolding new_system proc_thread_pool Manager.admit Lifecycle.open_handler Lifecycle.new_connection
manager_serving = record {
  last = _;
  reach =
      then_move _ _
        (then_move _ _
          (then_move _ _
            (then_move _ _ (then_move _ _ here (elsewhere _ (activate 1) refl refl))
              (elsewhere _ (worker _ (enter 0 refl)) refl refl))
            (admitted 3 (codes "host") (pos 0) true true refl))
          (readable 3 _ true refl refl refl))
        (taken 0 3 [] refl refl);
}

manager_worker_alone_example :
    (x : Lifecycle.Connection) × (manager_serving.last.clients 3 ≡ some x)
    × (x.registered ≡ false)
    × (x.deleted ≡ false)
    × (queued 3 manager_serving.last.pool.queue ≡ 0)
    × (holding 3 [] ≡ 0)
unfolding manager_serving
manager_worker_alone_example =
    manager_worker_alone manager_serving.last manager_serving.reach [] [] 3 inside refl refl

-- The worker of `serving` serves the connection and goes on.
record Turn : Type 0 where
  last : System dispatch_handler
  works : Works dispatch_handler false (serving false).last 2 last
  connection : Connection
  found : last.clients 5 ≡ some connection

unfoldable turn : Turn
unfolding serving
turn = record {
  last = _;
  works =
      then_work 1 _ _ (then_work 0 _ _ rested (served [] [] 5 _ true [] refl refl refl) refl)
        (left_behind [] [] 5 _ _ [] refl refl) refl;
  connection = _;
  found = refl;
}

workers_rest_example :
    (2 ≤ 3 * length (serving false).last.pool.queue + 2 * length (serving false).last.workers)
    × (Goes dispatch_handler false turn.last
        ⊎ ((turn.last.pool.queue ≡ [])
            × (turn.last.workers ≡ [])
            × (turn.connection.registered || turn.connection.deleted ≡ true)))
unfolding serving
workers_rest_example =
    workers_rest (serving false).last turn.last 2 5 turn.connection (serving false).reach
      (omega arith) refl turn.works turn.found
