-- ===== src/Runtime/Tables.antt =====
-- The tables of services/control-plane/src/db/schema.ts as relations: where a table stands in the
-- state, its primary key and unique indexes, and its references.
pub mod Checks
pub mod Iam
pub mod Projects
pub mod Mq
pub mod Compute
pub mod Billing
pub mod Databases
pub mod Storage
pub mod Bindings
pub mod Domains
pub mod Enterprise
pub mod Platform
