-- ===== src/Runtime.antt =====
-- The state, what the services use of third parties, and the methods' monad.
pub mod Stripe
pub mod Cluster
pub mod Env
pub mod State
pub mod Action
pub mod Laws
pub mod Tables
