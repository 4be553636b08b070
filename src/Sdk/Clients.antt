-- ===== src/Sdk/Clients.antt =====
-- The clients of packages/sdk-ts/src/clients, one call for each method.
pub mod Apps
pub mod Auth
pub mod Billing
pub mod Bindings
pub mod Config
pub mod Databases
pub mod Enterprise
pub mod Environments
pub mod Orgs
pub mod Platform
pub mod Projects
pub mod Storage
