-- ===== src/Bridge.antt =====
-- apps/veilid-http-bridge: the process that translates VHTTP transactions to one HTTP upstream.
pub mod Error
pub mod Bundling
pub mod Streaming
pub mod Upstream
pub mod Config
pub mod Atomic
