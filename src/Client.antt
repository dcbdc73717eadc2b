-- ===== src/Client.antt =====
-- deric_rpc/rpc/client: the connection to a service, and the calls that go over it.
pub mod Impl
pub mod Entry
pub mod Host
