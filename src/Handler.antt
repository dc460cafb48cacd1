-- ===== src/Handler.antt =====
-- The dispatcher's connection handler, `proc_handler`.
pub mod Strings
pub mod State
pub mod Protocol
pub mod Lifecycle
mod Tests
mod Sessions
