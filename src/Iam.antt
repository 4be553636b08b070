-- ===== src/Iam.antt =====
-- Identity: services/control-plane/src/modules/iam.
pub mod Users
pub mod Orgs
pub mod Sessions
pub mod Auth
pub mod Slugify
