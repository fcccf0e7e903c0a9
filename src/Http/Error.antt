-- ===== src/Http/Error.antt =====
-- `HttpTranslationError` and `AtomicCodecError` of crates/veilid-http-http/src/lib.rs.
use Prim.Native.String.{String}
use veilid_http.Wire.Error.{WireError}
use veilid_http.Core.Error.{CoreError}

pub data HttpTranslationError : Type 0 where
  invalid_method absolute_uri_forbidden connect_unsupported invalid_upstream : HttpTranslationError

pub data AtomicCodecError : Type 0 where
  wire : WireError → AtomicCodecError
  http : HttpTranslationError → AtomicCodecError
  metadata_encode : String → AtomicCodecError
  metadata_decode : String → AtomicCodecError
  core : CoreError → AtomicCodecError
  unexpected_frame missing_metadata invalid_body_metadata : AtomicCodecError
  length_mismatch digest_mismatch : AtomicCodecError
