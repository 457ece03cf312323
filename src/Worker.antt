-- ===== src/Worker.antt =====
-- The Cloudflare worker under worker/: the routing of its state and the tables of its Durable Object.
pub mod Region
pub mod Durable
pub mod Numbers
pub mod Dispatch
pub mod Store
pub mod Config
