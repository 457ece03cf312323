-- ===== src/Tests.antt =====
-- Runs of the library at concrete inputs: tests of the definitions, and the theorems applied.
mod Store
mod Requests
mod Settings
mod Wire
mod Chain
mod Worker
mod Redis
mod HeaderMap
mod Native
mod Serve
