-- ===== src/Wire.antt =====
-- crates/veilid-http-wire/src/lib.rs: frames and bundles.
pub mod Limits
pub mod Error
pub mod Reader
pub mod Writer
pub mod FrameType
pub mod Metadata
pub mod Frame
pub mod Bundle
pub mod Sample
