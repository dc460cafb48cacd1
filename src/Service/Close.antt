-- ===== src/Service/Close.antt =====
-- What `fini` of the dispatch service does (cci_daemon/src/coordinator/HA_dispatcher_protocol_dynamic.cpp), with
-- `close` of its acceptor (cci_daemon/src/procs/proc_ace_acceptor.cpp). A pool that is to stop goes on with its steps
-- until `stop` returns, so closing is a relation.
pub mod Laws
use cci_daemon.Base.{
  ℕ, zero, suc, ◌+◌, ◌≡◌, Bool, true, false, ◌&&◌, Option, none, some, List, [], ◌∷◌, ◌++◌, ltb,
  if◌then◌else◌, Text, codes, length, take, drop, replicate, find_char, ℤ, pos,
}
use cci_daemon.Daemonize.PidFile.{digits}
use cci_daemon.Handler.Lifecycle.{is_thread_pool}
use cci_daemon.ThreadPool.{Pool, Steps, polling, stopped}
use cci_daemon.Service.{Acceptor, Dispatcher}

abbrev pub has_own_pool : Acceptor → Bool
has_own_pool a = is_thread_pool a.concurrency && a.is_private

-- `close`; `closed` is what the inherited `close` gives, which takes the acceptor from the reactor.
pub data Close (a : Acceptor) : Acceptor × ℤ → Type 0 where
  stops :
      (q : Pool) (closed : ℤ)
      → has_own_pool a ≡ true
      → Steps a.the_pool q
      → q.phase ≡ polling
      → q.active_threads ≡ 0
      → Close a (record a { the_pool = record q { phase = stopped }; listening = none }, closed)
  has_none : (closed : ℤ) → has_own_pool a ≡ false → Close a (record a { listening = none }, closed)

pub data Fini (d : Dispatcher) : Dispatcher × ℤ → Type 0 where
  fini :
      (a : Acceptor) (closed : ℤ)
      → Close d.acceptor (a, closed)
      → Fini d (record d { acceptor = a }, pos 0)

-- The destructor; `close_pool` is what the framework's `close` of a task does to the pool.
unfoldable pub destroy_acceptor : (Pool → Pool) → Acceptor → Acceptor
destroy_acceptor close_pool a =
    if has_own_pool a then record a { the_pool = close_pool a.the_pool } else a

-- The authentication manager's acceptor and service do the same.
abbrev pub ManagerClose : Acceptor → Acceptor × ℤ → Type 0
ManagerClose a x = Close a x

abbrev pub ManagerFini : Dispatcher → Dispatcher × ℤ → Type 0
ManagerFini d x = Fini d x

abbrev pub destroy_auth_mgr_acceptor : (Pool → Pool) → Acceptor → Acceptor
destroy_auth_mgr_acceptor close_pool a = destroy_acceptor close_pool a
