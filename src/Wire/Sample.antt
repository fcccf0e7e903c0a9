-- ===== src/Wire/Sample.antt =====
-- A MessagePack codec for the empty metadata only, and a frame, for the tests.
use Prim.Native.String.{String}
use veilid_http.Prelude.{
  ◌≡◌, refl, Bool, true, false, ◌&&◌, [], ◌∷◌, ◌==◌, if◌then◌else◌, arith, Result, ok, err,
}
use veilid_http.Prelude.HashMap.{HashMap}
use veilid_http.Wire.Reader.{Bytes}
use veilid_http.Wire.FrameType.{request_data}
use veilid_http.Wire.Metadata.{Metadata, default}
use veilid_http.Wire.Frame.{Frame}
use veilid_http.Wire.Frame.RoundTrip.{Decodes, InRange}

abbrev no_fields : {V : Type 0} → HashMap V → Bool
no_fields [] = true
no_fields (e ∷ m) = false

-- The empty map of MessagePack is the byte 0x80.
abbrev pub to_vec : Metadata → Result String Bytes
to_vec m =
    if no_fields m.http && no_fields m.vhttp && no_fields m.extensions
    then ok (0x80 ∷ [])
    else err "not empty"

abbrev pub of_slice : Bytes → Result String Metadata
of_slice [] = err "empty"
of_slice (b ∷ s) = if b == 0x80 then ok default else err "not the empty map"

no_fields-nil : {V : Type 0} (m : HashMap V) → no_fields m ≡ true → m ≡ []
no_fields-nil [] e = refl
no_fields-nil (x ∷ m) e = absurd (ground arith)

pub sample-Decodes : Decodes to_vec of_slice
sample-Decodes m bytes e =
    ground (arith, no_fields-nil m.http, no_fields-nil m.vhttp, no_fields-nil m.extensions)

abbrev pub sample_frame : Frame
sample_frame = record {
  frame_type = request_data;
  flags = 0;
  transaction_id = 7 ∷ 7 ∷ 7 ∷ 7 ∷ 7 ∷ 7 ∷ 7 ∷ 7 ∷ 7 ∷ 7 ∷ 7 ∷ 7 ∷ 7 ∷ 7 ∷ 7 ∷ 7 ∷ [];
  sequence = 4;
  cumulative_ack = 2;
  metadata = default;
  payload = b'h' ∷ b'i' ∷ [];
}

pub sample_frame-InRange : InRange sample_frame
sample_frame-InRange = record {
  flags = omega arith;
  id = refl;
  sequence = omega arith;
  cumulative_ack = omega arith;
}

-- The frame's 43 bytes.
abbrev pub sample_bytes : Bytes
sample_bytes =
    b'V' ∷ b'H' ∷ b'T' ∷ b'P' ∷ 1 ∷ 4 ∷ 0 ∷ 0 ∷ 7 ∷ 7 ∷ 7 ∷ 7 ∷ 7 ∷ 7 ∷ 7 ∷ 7 ∷ 7 ∷ 7 ∷ 7 ∷ 7 ∷ 7
    ∷ 7 ∷ 7 ∷ 7 ∷ 0 ∷ 0 ∷ 0 ∷ 4 ∷ 0 ∷ 0 ∷ 0 ∷ 2 ∷ 0 ∷ 1 ∷ 0 ∷ 0 ∷ 0 ∷ 0 ∷ 0 ∷ 2 ∷ 0x80 ∷ b'h' ∷ b'i'
    ∷ []
