-- ===== src/Manager.antt =====
-- The authentication manager, of cci_daemon/src/manager: a handler of its own for each connection, with the
-- protocol of the dispatch daemon.
pub mod State
pub mod Strings
pub mod Protocol
pub mod Equivalence
pub mod Named
pub mod Answers
pub mod Lines
pub mod Lifecycle
pub mod Agrees
pub mod Results
pub mod Pool
mod Tests
