-- ===== src/Sdk.antt =====
-- The client of packages/sdk-ts/src.
pub mod Http
pub mod Calls
pub mod Clients
