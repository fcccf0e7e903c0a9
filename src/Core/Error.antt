-- ===== src/Core/Error.antt =====
-- `CoreError` of crates/veilid-http-core/src/lib.rs. An I/O error is kept as its text.
use Prim.Native.String.{String}
use veilid_http.Prelude.{ℕ}

pub data CoreError : Type 0 where
  invalid_window_capacity : CoreError
  send_window_full : (capacity : ℕ) → CoreError
  sequence_exhausted : CoreError
  pending_limit : (actual limit : ℕ) → CoreError
  compression : String → CoreError
  decompressed_limit : (actual limit : ℕ) → CoreError
