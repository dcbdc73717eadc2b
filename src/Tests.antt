-- ===== src/Tests.antt =====
-- Concrete parameters and inputs, at which the theorems are applied.
mod Packer
mod Machine
mod Replies
mod Calls
mod Frames
mod Connections
mod Events
mod Services
mod Waits
mod Hosts
mod Exchanges
mod Entries
mod Syncs
mod Strands
mod Isolations
mod Configs
mod Clients
mod Accepts
mod Availability
mod Crowds
mod Descriptors
mod Examples
mod ExampleClients
mod ExampleCalls
