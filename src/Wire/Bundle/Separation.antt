-- ===== src/Wire/Bundle/Separation.antt =====
-- The two kinds of payload are told apart by their magic: a frame is no bundle.
use Prim.Native.String.{String}
use veilid_http.Prelude.{◌≡◌, take, Result, arith, bytes_eq→eq}
use veilid_http.Wire.Limits.{magic}
use veilid_http.Wire.Error.{WireError, invalid_bundle_magic}
use veilid_http.Wire.Reader.{Bytes, failed, get_bytes-run, ◌>>=◌}
use veilid_http.Wire.Metadata.{Metadata}
use veilid_http.Wire.Frame.Delimited.{Delimited}
use veilid_http.Wire.Bundle.{read_bundle, decode}

module _ (from_slice : Bytes → Result String Metadata) where
  pub decode-Delimited_frame :
      (bytes : Bytes) → Delimited bytes → decode from_slice bytes ≡ failed invalid_bundle_magic
  unfolding decode read_bundle
  decode-Delimited_frame bytes d =
      rw
        (
          get_bytes-run {E = WireError} 4 bytes (omega (arith, d.complete)),
          ◌>>=◌,
          bytes_eq→eq (take 4 bytes) magic d.starts,
        )
        (ground (arith, d.complete, d.fits))
