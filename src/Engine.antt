-- ===== src/Engine.antt =====
-- crates/veilid-http-engine: the sender and the receiver of one logical body.
pub mod Error
pub mod Outgoing
pub mod Incoming
