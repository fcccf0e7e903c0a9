-- ===== src/Http.antt =====
-- crates/veilid-http-http: HTTP heads, their translation and the atomic codec.
pub mod Error
pub mod Headers
pub mod Translation
pub mod Atomic
