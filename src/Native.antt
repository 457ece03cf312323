-- ===== src/Native.antt =====
-- The crate gateway-rust/: the native server around the core.
pub mod Redis
pub mod Config
pub mod HeaderMap
pub mod Headers
pub mod HttpClient
pub mod Proxy
pub mod Clock
pub mod State
pub mod Router
pub mod Wiring
pub mod Serve
