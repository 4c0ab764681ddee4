-- ===== src/Bridge.antt =====
-- peat-sapient/src/bridge.rs: the bridge that accepts sensor connections. Its sockets are outside the
-- model: a connection is a number, and what is handed to its writer is the log `sent`.
pub mod Update
pub mod Route
pub mod State
pub mod Outbound
pub mod Connection
pub mod Serve
