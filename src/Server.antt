-- ===== src/Server.antt =====
-- A server of many connections: the reactor's thread, which takes connections and hands them over, and the workers
-- of the thread pool, which serve them (cci_daemon/src/procs/proc_ace_handler.cpp and proc_ace_thread_pool.cpp, and the
-- same code of cci_daemon/src/manager). The steps interleave in any order. A worker's turn with a handler is
-- three steps: it takes the handler from the queue, it runs `handle_input`, in which the handler is registered again, and
-- it goes on with the result. The reactor may hand the handler over before the worker goes on.
pub mod Handling
pub mod Dispatch
pub mod Manager
pub mod Places
pub mod Laws
pub mod Work
pub mod Drained
pub mod Exclusive
mod Tests
use cci_daemon.Base.{
  ℕ, suc, ◌≡◌, Bool, true, ◌||◌, Option, none, some, List, [], ◌∷◌, ◌++◌, ◌==◌, if◌then◌else◌, Text,
  ℤ, map,
}
use cci_daemon.ThreadPool.{Client, Pool, enqueue, svc_got, svc_served, Step}
use cci_daemon.Server.Handling.{Handler}

-- Where a worker is with its handler: about to run `handle_input` or in it, or behind it, with its result.
pub data Stage : Type 0 where
  inside : Stage
  returned : ℤ → Stage

abbrev pub names : List (Client × Stage) → List Client
names [] = []
names ((c, s) ∷ ws) = c ∷ names ws

-- The handlers in the queue, without the null pointers.
abbrev pub waiting_clients : List (Option Client) → List Client
waiting_clients [] = []
waiting_clients (none ∷ q) = waiting_clients q
waiting_clients (some c ∷ q) = c ∷ waiting_clients q

abbrev pub update : {A : Type 0} → Client → A → (Client → Option A) → Client → Option A
update c a f d = if d == c then some a else f d

module _ (h : Handler) where
  open h use {Connection}

  -- `clients` has the connections that were made, each under a number of its own; `workers` are those that serve.
  pub record System : Type 0 where
    pub clients : Client → Option Connection
    pub workers : List (Client × Stage)
    pub pool : Pool

  unfoldable pub new_system : Pool → System
  new_system p = record { clients = λ c. none; workers = []; pool = p }

  -- Where `lossy` is false the queue and the reactor take every handler that they are given after `open`; where it is true
  -- they may refuse one. The last move takes no handler from the pool and gives it none.
  pub data Move (lossy : Bool) (s : System) : System → Type 0 where
    admitted :
        (c : Client) (hostname : Text) (activated : ℤ) (peer_known accepted : Bool)
        → s.clients c ≡ none
        → Move lossy s (record s {
          clients = update c (h.admit hostname activated peer_known accepted) s.clients;
        })
    readable :
        (c : Client) (x : Connection) (accepted : Bool)
        → s.clients c ≡ some x
        → h.registered x ≡ true
        → accepted || lossy ≡ true
        → Move lossy s (record s {
          clients = update c (h.hand_over accepted x) s.clients;
          pool = (enqueue accepted s.pool (some c)).0;
        })
    taken :
        (left : ℕ) (c : Client) (rest : List (Option Client))
        → s.pool.waiting ≡ suc left
        → s.pool.queue ≡ some c ∷ rest
        → Move lossy s (record s {
          workers = (c, inside) ∷ s.workers;
          pool = svc_got s.pool left (some c) rest;
        })
    served :
        (before after : List (Client × Stage)) (c : Client) (x : Connection) (registers : Bool)
        (chunks : List Text)
        → s.workers ≡ before ++ (c, inside) ∷ after
        → s.clients c ≡ some x
        → registers || lossy ≡ true
        → Move lossy s (record s {
          clients = update c (h.process_input registers chunks x).0 s.clients;
          workers = before ++ (c, returned (h.process_input registers chunks x).1) ∷ after;
        })
    left_behind :
        (before after : List (Client × Stage)) (c : Client) (x : Connection) (result : ℤ)
        (client_addr : Text)
        → s.workers ≡ before ++ (c, returned result) ∷ after
        → s.clients c ≡ some x
        → Move lossy s (record s {
          clients = update c (h.leave result client_addr x) s.clients;
          workers = before ++ after;
          pool = svc_served s.pool (names before ++ names after) c result;
        })
    elsewhere :
        (q : Pool)
        → Step s.pool q
        → q.busy ≡ s.pool.busy
        → waiting_clients q.queue ≡ waiting_clients s.pool.queue
        → Move lossy s (record s { pool = q })

  pub data Moves (lossy : Bool) (s : System) : System → Type 0 where
    here : Moves lossy s s
    then_move : (t u : System) → Moves lossy s t → Move lossy t u → Moves lossy s u
