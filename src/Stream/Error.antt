-- ===== src/Stream/Error.antt =====
-- `StreamProtocolError` of crates/veilid-http-stream/src/lib.rs.
use Prim.Native.String.{String}
use veilid_http.Prelude.{ℕ}
use veilid_http.Prelude.HashMap.{Key}
use veilid_http.Wire.Error.{WireError}

-- The two texts that `MetadataDecode` is built with: a missing extension, or MessagePack's error.
pub data DecodeFault : Type 0 where
  missing : Key → DecodeFault
  malformed : String → DecodeFault

pub data StreamProtocolError : Type 0 where
  wire : WireError → StreamProtocolError
  metadata_encode : String → StreamProtocolError
  metadata_decode : DecodeFault → StreamProtocolError
  compression : String → StreamProtocolError
  length_mismatch : StreamProtocolError
  digest_mismatch : StreamProtocolError
  logical_limit : (actual limit : ℕ) → StreamProtocolError
  direction_mismatch : StreamProtocolError
