-- ===== src/Core.antt =====
-- crates/veilid-http-core/src/lib.rs: windows, reassembly, batching, retries and the journal.
pub mod Error
pub mod ReceiveWindow
pub mod Reassembler
pub mod FrameBatcher
pub mod SendWindow
pub mod RetryPolicy
pub mod TransactionJournal
pub mod Compression
