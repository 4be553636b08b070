-- ===== src/Controllers.antt =====
-- The routes of the controllers of services/control-plane/src/modules.
pub mod Route
pub mod Pipes
pub mod Apps
pub mod Auth
pub mod Billing
pub mod Bindings
pub mod Databases
pub mod Domains
pub mod Enterprise
pub mod Platform
pub mod Projects
pub mod Storage
