-- ===== src/Databases.antt =====
-- Managed databases: services/control-plane/src/modules/databases.
pub mod Instances
pub mod Operator
pub mod Users
pub mod Backups
