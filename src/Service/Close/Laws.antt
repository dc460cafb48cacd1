-- ===== src/Service/Close/Laws.antt =====
-- What closing leaves of the pool.
use cci_daemon.Base.{◌≡◌, true, false, none, []}
use cci_daemon.Handler.Lifecycle.{Concurrency}
use cci_daemon.ThreadPool.{Pool}
use cci_daemon.Service.{Acceptor, proc_acceptor, shared_acceptor}
use cci_daemon.Service.Close.{Close}

-- Nothing is listened to, and no worker runs.
pub record IsClosed (a : Acceptor) : Type 0 where
  pub deaf : a.listening ≡ none
  pub inactive : a.the_pool.active_threads ≡ 0
  pub no_waiting : a.the_pool.waiting ≡ 0
  pub no_busy : a.the_pool.busy ≡ []

-- The two constructors.
pub data Made : Acceptor → Type 0 where
  with_own : (concurrency : Concurrency) → Made (proc_acceptor concurrency)
  over : (pool : Pool) → Made (shared_acceptor pool)

-- What is left of an acceptor `a` by `close`: nothing runs in its own pool, and a shared pool stays as it was.
pub data Leaves (a b : Acceptor) : Type 0 where
  stopped_own : a.is_private ≡ true → IsClosed b → Leaves a b
  spared : a.is_private ≡ false → b.listening ≡ none → b.the_pool ≡ a.the_pool → Leaves a b
