-- ===== src/Schema.antt =====
-- The tables of services/control-plane/src/db/schema.ts: one record for each table that the
-- services read or write, a field for each column. A timestamp is a number of milliseconds, a
-- column with no `notNull` is an `Option`, and integers are natural numbers. What the tables
-- enforce (primary keys, unique indexes, references) stands with the handles in Runtime/Tables.
pub mod Json
pub mod Iam
pub mod Projects
pub mod Mq
pub mod Compute
pub mod Domains
pub mod Billing
pub mod Databases
pub mod Storage
pub mod Bindings
pub mod Scalars
pub mod Enterprise
pub mod Platform
