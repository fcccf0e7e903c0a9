-- ===== src/Stream.antt =====
-- crates/veilid-http-stream: the semantic frames, and the compression and integrity streams.
pub mod Types
pub mod Error
pub mod Crates
pub mod Codec
pub mod Encoder
pub mod Decoder
pub mod Sample
pub mod Transfer
