-- ===== src/Tests.antt =====
-- Concrete data for the tests, and each theorem at it.
pub mod Toy
pub mod Data
pub mod Stores
pub mod Policies
pub mod Tokens
pub mod Boundaries
pub mod Verifying
pub mod Deployments
pub mod Routing
pub mod Semantics
