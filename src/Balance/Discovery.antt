-- ===== src/Balance/Discovery.antt =====
-- umay/src/balance/discovery.rs: the trait `ServiceDiscovery` and its two implementations. The
-- resolver of the crate `hickory_resolver` is a parameter.
pub mod Local
pub mod Dns
pub mod Service
