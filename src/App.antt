-- ===== src/App.antt =====
-- umay/src/app: the configuration, and the server that is built from it.
pub mod Config
pub mod Crates
pub mod Server
pub mod Service
pub mod Run
pub mod Main
pub mod Signal
pub mod System
pub mod Program
mod Examples
