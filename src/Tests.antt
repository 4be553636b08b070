-- ===== src/Tests.antt =====
-- An instance of the services' parameters, sample rows, and the theorems at them.
pub mod Concrete
pub mod Rows
pub mod World
pub mod Billing
pub mod Services
pub mod Resources
pub mod Accounts
pub mod Usage
pub mod Cluster
pub mod Client
pub mod Requests
