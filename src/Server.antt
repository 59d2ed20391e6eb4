-- ===== src/Server.antt =====
-- src/server: the sessions of the relayed queries, and the event loop.
pub mod Session
pub mod Loop
pub mod Receive
