-- ===== src/Server.antt =====
-- deric_rpc/rpc/server: the service and the objects that stand for its clients.
pub mod Client
pub mod Service
pub mod Registry
pub mod Handlers
pub mod Accept
pub mod Host
pub mod Entry
pub mod Linked
pub mod InStep
