-- ===== src/Example.antt =====
-- The programs of example that show the library in use.
pub mod Api
pub mod Console
pub mod Server
pub mod Client
