-- ===== src/Proxy.antt =====
-- umay/src/proxy: what is done with a connection.
pub mod Http
pub mod Stream
pub mod Samples
mod Examples
