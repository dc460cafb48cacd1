-- ===== src/Server/Exclusive.antt =====
-- The servers of the two daemons: who is with a handler, and what becomes of a connection.
use cci_daemon.Base.{
  ℕ, ◌+◌, ◌*◌, ◌<◌, ◌≤◌, ◌⊎◌, inl, inr, [], ◌≡◌, refl, true, false, some, List, ◌∷◌, ◌++◌, length,
  arith, ◌||◌, ◌&&◌, if◌then◌else◌,
}
use cci_daemon.Handler.Lifecycle.{Connection}
use cci_daemon.Manager.Lifecycle
use cci_daemon.ThreadPool.{Client, proc_thread_pool, Steps}
use cci_daemon.ThreadPool.Stop.{nulls}
use cci_daemon.Server.{Stage, System, new_system, Moves}
use cci_daemon.Server.Dispatch.{dispatch_handler}
use cci_daemon.Server.Manager.{manager_handler}
use cci_daemon.Server.Places.{weight, holding, queued}
use cci_daemon.Server.Work.{Works, Works-Moves}
use cci_daemon.Server.Drained.{Goes, Works-end, idle-Placed}
use cci_daemon.Server.Laws.{Moves-alone, Moves-made, Moves-pool}

-- However the reactor and the workers of the dispatch daemon take turns, from a new pool on: a worker that is to run a
-- handler or runs it, or is about to close it, is the only one, and the handler is not in the queue, not
-- registered with the reactor and not deleted. The connections have numbers of their own, and the process has not been
-- ended by a timer. The queue and the reactor may refuse a handler.
pub worker_alone :
    (s : System dispatch_handler)
    → Moves dispatch_handler true (new_system dispatch_handler proc_thread_pool) s
    → (before after : List (Client × Stage)) (c : Client) (stage : Stage)
    → s.workers ≡ before ++ (c, stage) ∷ after
    → weight stage ≡ 1
    → (x : Connection) × (s.clients c ≡ some x)
      × (x.registered ≡ false)
      × (x.deleted ≡ false)
      × (queued c s.pool.queue ≡ 0)
      × (holding c (before ++ after) ≡ 0)
worker_alone s moves before after c stage =
    Moves-alone dispatch_handler true s moves before after c stage

-- However the reactor and the workers of the authentication manager take turns, from a new pool on: a worker that is to
-- run a handler or runs it, or is about to close it, is the only one, and the handler is not in the queue, not
-- registered with the reactor and not deleted. The connections have numbers of their own, and the process has not
-- been ended by a timer. The queue and the reactor may refuse a handler.
pub manager_worker_alone :
    (s : System manager_handler)
    → Moves manager_handler true (new_system manager_handler proc_thread_pool) s
    → (before after : List (Client × Stage)) (c : Client) (stage : Stage)
    → s.workers ≡ before ++ (c, stage) ∷ after
    → weight stage ≡ 1
    → (x : Lifecycle.Connection) × (s.clients c ≡ some x)
      × (x.registered ≡ false)
      × (x.deleted ≡ false)
      × (queued c s.pool.queue ≡ 0)
      × (holding c (before ++ after) ≡ 0)
manager_worker_alone s moves before after c stage =
    Moves-alone manager_handler true s moves before after c stage

-- Where the queue takes every handler that the reactor hands over, and the reactor every handler that a worker registers
-- again: however the reactor and the workers of the dispatch daemon take turns, from a new pool on, no connection is lost and
-- none is served twice. One that is registered with the reactor or deleted, of which it is never both, is not in the
-- pool, and any other is there once, in the queue or with a worker that is to run it, runs it or is about to
-- close it.
pub connection_kept :
    (s : System dispatch_handler) (c : Client) (x : Connection)
    → Moves dispatch_handler false (new_system dispatch_handler proc_thread_pool) s
    → s.clients c ≡ some x
    → (queued c s.pool.queue + holding c s.workers ≡ (if x.registered || x.deleted then 0 else 1))
      × (x.registered && x.deleted ≡ false)
connection_kept s c x moves at =
    let (most, least, apart) = Moves-made dispatch_handler false s moves c (some x) at in
    (omega (arith, most, least), apart)

-- The server refines its pool: whatever the connections do, the pool goes by its own steps from a new pool on, so the
-- counter of `stop` is the number of workers that wait or are with a handler.
pub server-Steps :
    (s : System dispatch_handler)
    → Moves dispatch_handler true (new_system dispatch_handler proc_thread_pool) s
    → Steps proc_thread_pool s.pool × (s.pool.active_threads ≡ s.pool.waiting + length s.workers)
server-Steps s moves = Moves-pool dispatch_handler true s moves

-- Where nothing new comes in, the queue takes every handler that the reactor hands over, and the reactor every handler that a
-- worker registers again: from any state that the dispatch daemon's server reaches with a thread in `svc` and no null
-- pointer queued, the workers' moves with handlers are at most 3 for each entry of the queue and 2 for each worker
-- with a handler. When none of them is possible any more, the queue is empty, no worker has a handler, and each
-- connection that was made is registered with the reactor or deleted.
pub workers_rest :
    (s t : System dispatch_handler) (n : ℕ) (c : Client) (x : Connection)
    → Moves dispatch_handler false (new_system dispatch_handler proc_thread_pool) s
    → 0 < s.pool.active_threads
    → nulls s.pool.queue ≡ 0
    → Works dispatch_handler false s n t
    → t.clients c ≡ some x
    → (n ≤ 3 * length s.pool.queue + 2 * length s.workers)
      × (Goes dispatch_handler false t
          ⊎ ((t.pool.queue ≡ []) × (t.workers ≡ []) × (x.registered || x.deleted ≡ true)))
workers_rest s t n c x moves some_thread asked works at =
    let (few, rest) = Works-end dispatch_handler false s t n moves some_thread asked works in
    let there =
      Works-Moves dispatch_handler false (new_system dispatch_handler proc_thread_pool) s t n moves
        works in
    (
      few,
      elim rest [
        | inl g ↦ inl g
        | inr (q, w) ↦ inr (q, w, idle-Placed dispatch_handler false t there refl q w c x at)
      ],
    )
