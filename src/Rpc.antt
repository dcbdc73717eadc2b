-- ===== src/Rpc.antt =====
-- A whole call: the request that RpcClientEntry builds (deric_rpc/rpc/client), what the service
-- makes of it (deric_rpc/rpc/server), and what the client reads from the reply.
pub mod Messages
pub mod Call
pub mod Served
pub mod Sent
pub mod Round
pub mod Delivery
pub mod Remote
pub mod Exchange
pub mod Closing
pub mod HangUp
pub mod Dropped
pub mod Setup
pub mod Isolation
pub mod Sync
pub mod Available
pub mod Spurious
