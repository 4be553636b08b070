-- ===== src/Contracts.antt =====
-- What the contracts of packages/contracts/src say of a request, as tests.
pub mod Primitives
pub mod JsonValues
pub mod Envelopes
pub mod Requests
