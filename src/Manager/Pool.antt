-- ===== src/Manager/Pool.antt =====
-- cci_daemon/src/manager/auth_mgr_thread_pool.cpp, which is the dispatch daemon's thread pool under other names: its
-- states and steps are those of ThreadPool.antt.
use cci_daemon.Base.{ℕ, Bool, Option, ℤ}
use cci_daemon.ThreadPool.{Client, Pool, proc_thread_pool, start, enqueue, Worker, Stopper}

abbrev pub auth_mgr_thread_pool : Pool
auth_mgr_thread_pool = proc_thread_pool

abbrev pub manager_start : Pool → ℕ → Pool
manager_start p pool_size = start p pool_size

abbrev pub manager_enqueue : Bool → Pool → Option Client → Pool × ℤ
manager_enqueue accepted p handler = enqueue accepted p handler

-- The steps of `svc`, and of `stop`.
abbrev pub ManagerWorker : Pool → Pool → Type 0
ManagerWorker p q = Worker p q

abbrev pub ManagerStopper : Pool → Pool → Type 0
ManagerStopper p q = Stopper p q
