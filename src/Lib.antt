-- ===== src/Lib.antt =====
-- cci-daemon: a verification library for the daemon, its protocol handlers, its thread pool and its kernel.
--
-- The program turns itself into a daemon (cci_daemon/src/core/cci_daemonize.cpp), loads a kernel and a
-- coordinator from shared libraries (cci_daemon/src/core/cci_daemon.cpp), loads plugins that open brokers
-- (cci_daemon/src/kernel, include/cci_daemon_kernel.h, include/cci_pub_and_sub.h) and serves a line protocol
-- over ACE sockets (cci_daemon/src/procs, include/proc_ace_acceptor.h), with a thread for each connection
-- or a pool of threads.
--
-- The files:
--   Base.antt, Base/*.antt   tests on numbers, lists, `std::string` as a list of bytes (a `size_type` wraps at
--     2 ^ 64), `int` results, and `std::map` as a list in the order of its keys.
--   Host.antt   the system calls. A program is a function of an environment, which answers each call from the
--     calls before it, and of the history of calls; so every behaviour of the system is some environment.
--   Daemonize.antt   `daemonize_` as a state machine with fuel, one round a unit. Daemonize/Machine.antt
--     compares it with straight-line code: 8 rounds are enough, since no state comes twice, but for the state
--     that a flag never lets go. Daemonize/Effects.antt has its calls, Daemonize/Steps.antt the functions that
--     take one step, Daemonize/PidFile.antt `lock_region`, `write_pid` and `remove_pid`, and Daemonize/PidLine.antt
--     the text of the pid file.
--   Handler/State.antt   the fields of `proc_handler`, its output and its connection state.
--   Handler/Strings.antt   its string utilities; Handler/Strings/Laws.antt their laws.
--   Handler/Protocol.antt   `parse_command`, `perform`, `on_login`, `process` and `svc`. Protocol/Parse.antt and
--     Protocol/Perform.antt are about one request, Protocol/Session.antt and Protocol/Login.antt about its
--     answer, Protocol/Quiet.antt about the read loop, Protocol/Fragments.antt about requests that arrive in
--     pieces. `process` is given the results of `recv`; no fuel is needed. Protocol/Reading.antt separates what is
--     read from what is done with it. Protocol/Reference.antt describes the protocol as a client knows it;
--     Protocol/Refine.antt, Protocol/Line.antt and Protocol/Lines.antt compare the handler with it. Protocol/Within.antt
--     and Protocol/Bounds.antt bound what any input can do.
--   Handler/Lifecycle.antt   `open`, `handle_input`, `handle_close`, `handle_timeout`; a call of `serve` there
--     is a whole turn of a worker, whose steps Server.antt takes apart.
--   Manager.antt   the authentication manager (cci_daemon/src/manager): Manager/State.antt, Manager/Protocol.antt and
--     Manager/Lifecycle.antt have its handler, Manager/Equivalence.antt and Manager/Results.antt compare it with the
--     dispatch daemon's, Manager/Answers.antt and Manager/Lines.antt with the reference. Manager/Pool.antt
--     is its thread pool. Manager/Strings.antt has its string utilities. Manager/Agrees.antt and
--     Manager/Named.antt have lemmas for these.
--   ThreadPool.antt   `proc_thread_pool` as steps of its workers, of `stop` and of the reactor, which interleave;
--     ThreadPool/Stop.antt is about `stop`.
--   Server.antt   the server of many connections: the reactor, the queue and the workers of one pool as moves that
--     interleave, over a handler that is given by its operations (Server/Handling.antt). Server/Dispatch.antt and
--     Server/Manager.antt give those of the two daemons. Server/Places.antt counts where a connection stands,
--     Server/Laws.antt has what each move keeps, Server/Work.antt and Server/Drained.antt are about workers to
--     which nothing new comes, and Server/Exclusive.antt is about the two daemons.
--   Kernel.antt   plugins and the dictionary of the kernel (Kernel/Plugins.antt), the chain of duplexers
--     (Kernel/Brokers.antt), and the singleton with `make_kernel` and `unmake_kernel` (Kernel/Context.antt).
--     Kernel/Directives.antt has its names and version.
--   Facade.antt   the log, the loading of the coordinator and the mapping of the kernel, with exceptions and the
--     end of the process as values; Facade/Mapping.antt is about how these end, and Facade/PidFile.antt about the
--     facade's own `write_pid` and `remove_pid`.
--     Facade/Exec.antt is the loop of `daemon_default_exec`, on a list of the returns of `sleep`, up to the SIGTERM that ends it;
--     Facade/PidLog.antt, Facade/Logged.antt and Facade/Loop.antt are about it.
--   Main.antt   the options of the main programs and what becomes of the facade; Main/Options.antt is about the options,
--     Main/Whole.antt about the program from the facade's constructor to its destructor.
--   Meta.antt   the meta daemon (include/cci_meta_daemon.h, cci_daemon/src/meta-core). The loop of its start has fuel,
--     of which 4 rounds are enough (Meta/Start.antt); its work is a loop without end, taken for a number of rounds
--     (Meta/Work.antt).
--   Service.antt   the configuration of the dispatch service (cci_daemon/src/coordinator) and its acceptor,
--     Service/Manager.antt the configuration of the authentication manager's service (cci_daemon/src/manager),
--     Service/Python.antt the python bootstrap (cci_daemon/src/tornado); Service/Laws.antt is about all
--     three. Service/Close.antt closes the acceptors of both services, Service/Info.antt is what services say of
--     themselves.
--   Cache.antt   the configuration of ccifs and its notification thread (cci_daemon/src/ccifs). The walk over what was
--     read has fuel, its length in bytes, which is enough, since each event takes at least 16 of them;
--     Cache/Walk.antt is about it.
--   Coordinator.antt   `bootstrap_default_coordinator` over the facade (cci_daemon/src/coordinator), with the calls that
--     it makes in their order; Coordinator/Signals.antt is about its ends, Coordinator/Teardown.antt about a facade
--     with a kernel.
--   Trace.antt   the printing of a stack (cci_daemon/src/core/cci_stack_trace.cpp): Trace/Scan.antt is about the lines
--     of well-formed symbols, Trace/Shows.antt about any line, Trace/Walk.antt about the frame pointers, where the stack's end bounds the fuel.
--   */Tests.antt, Handler/Sessions.antt, Facade/ExecTests.antt   runs on concrete inputs.
--
-- Parameters: what `dlopen` and `dlsym` find, the functions of a plugin, the results of `activate`, of the
-- reactor and of the queue, ACE's options and configuration, the python interpreter, what inotify writes,
-- what `backtrace` and the demangler give, the events of the coordinator's reactor, and the
-- environment of system calls.
--
-- Not modelled: the handlers of SIGINT in the services, which nothing registers, the creator policies of
-- the meta daemon, the kafka plugin, which uses names that include/cci_pub_and_sub.h does not have,
-- buffer_stream_from_open, which nothing calls, time stamps, debug output and what goes to the system's
-- log. A read that fills the whole buffer leaves no NUL behind it, and the source then reads past the
-- buffer; the model ends the text with the buffer; the theorems that depend on it ask for reads that are
-- shorter. The timers are not among the moves of Server.antt: one that fires ends the process. In the pool
-- `getq` never fails, since nothing deactivates the queue, and `putq` accepts in the steps of
-- ThreadPool.antt. Among the moves of Server.antt the reactor may refuse a connection and the queue a job,
-- each with what the source then does; a theorem that excludes these moves says so. A plugin's functions
-- change the kernel's server only. The lock of the singleton is left out, since each call runs alone.
pub mod Base
pub mod Cache
pub mod Coordinator
pub mod Daemonize
pub mod Facade
pub mod Handler
pub mod Host
pub mod Kernel
pub mod Main
pub mod Manager
pub mod Meta
pub mod Server
pub mod Service
pub mod ThreadPool
pub mod Trace
