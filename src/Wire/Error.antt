-- ===== src/Wire/Error.antt =====
-- `WireError` of crates/veilid-http-wire/src/lib.rs.
use Prim.Native.String.{String}
use veilid_http.Prelude.{ℕ}

pub data WireError : Type 0 where
  truncated_header truncated_bundle invalid_bundle_magic empty_bundle bundle_count : WireError
  bundle_length invalid_magic : WireError
  unsupported_version : ℕ → WireError
  unknown_frame_type : ℕ → WireError
  reserved_field : WireError
  metadata_too_large : ℕ → WireError
  frame_too_large : (actual limit : ℕ) → WireError
  length_mismatch : WireError
  metadata_encode : String → WireError
  metadata_decode : String → WireError
