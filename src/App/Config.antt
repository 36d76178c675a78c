-- ===== src/App/Config.antt =====
-- umay/src/app/config.rs. The getters are the fields of the records; numbers are in the range of
-- their Rust types, which deserialisation sees to.
pub mod Listen
pub mod Tls
pub mod Stream
pub mod Http
pub mod Umay
pub mod Dns
