-- ===== src/Balance.antt =====
-- umay/src/balance: backends, the algorithms that select one, and where backends come from.
pub mod Backend
pub mod Selection
pub mod Discovery
pub mod Backends
pub mod LoadBalancer
mod Examples
