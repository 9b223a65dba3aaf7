-- ===== src/Core.antt =====
-- crates/core: the destination of a connection and its keys, the events, the requests and responses
-- between command line and daemon.
pub mod Errors
pub mod HostTarget
pub mod Events
pub mod Protocol
