-- ===== src/Storage.antt =====
-- Object storage: services/control-plane/src/modules/storage/storage.service.ts.
pub mod Buckets
pub mod AccessKeys
pub mod LifecycleRules
