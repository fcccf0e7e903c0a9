-- ===== src/Engine/Error.antt =====
-- `EngineError` of crates/veilid-http-engine/src/error.rs.
use veilid_http.Prelude.{ℕ}
use veilid_http.Core.Error.{CoreError}
use veilid_http.Stream.Error.{StreamProtocolError}

pub data EngineError : Type 0 where
  stream : StreamProtocolError → EngineError
  core : CoreError → EngineError
  invalid_window : ℕ → EngineError
  invalid_pending_bound : ℕ → EngineError
  input_chunk_too_large : (actual limit : ℕ) → EngineError
  pending_limit : (actual limit : ℕ) → EngineError
  sequence_exhausted already_finished transaction_mismatch direction_mismatch : EngineError
  unexpected_frame conflicting_end : EngineError
