-- ===== src/Server.antt =====
-- src/server/: the registry of clients, tunnels and conns, the session hello, and the dispatch of
-- the streams that a client opens.
pub mod Entries
pub mod State
pub mod Session
pub mod OpenStream
pub mod Host
pub mod Admin
