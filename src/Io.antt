-- ===== src/Io.antt =====
-- deric_rpc/io: connections, the server socket and the event module.
pub mod Connection
pub mod Events
pub mod Server
