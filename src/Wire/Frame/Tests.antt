-- ===== src/Wire/Frame/Tests.antt =====
-- A frame written and read, and the theorems at it.
use veilid_http.Prelude.{◌≤◌, ◌≡◌, refl, [], ◌∷◌, ◌++◌, ok}
use veilid_http.Wire.Limits.{veilid_message_limit, default_frame_limit}
use veilid_http.Wire.Error.{length_mismatch}
use veilid_http.Wire.Reader.{done, failed, Fine, get_u32, get_bytes}
use veilid_http.Wire.Frame.{layout, decode, encode_with_limit}
use veilid_http.Wire.FrameType.{to_u8, try_from}
use veilid_http.Wire.Frame.RoundTrip.{decode-encode_with_limit}
use veilid_http.Wire.Frame.Safety.{decode-Fine}
use veilid_http.Wire.Sample.{
  to_vec, of_slice, sample-Decodes, sample_frame, sample_frame-InRange, sample_bytes,
}

written : encode_with_limit to_vec sample_frame default_frame_limit ≡ ok sample_bytes
unfolding encode_with_limit layout to_u8
written = refl

-- `rejects_declared_length_mismatch`.
mismatched : decode of_slice (sample_bytes ++ 0 ∷ []) ≡ failed length_mismatch
unfolding decode get_u32 get_bytes try_from
mismatched = refl

decode-encode_with_limit_example :
    (decode of_slice sample_bytes ≡ done sample_frame)
    × (43 ≤ default_frame_limit)
    × (43 ≤ veilid_message_limit)
decode-encode_with_limit_example =
    decode-encode_with_limit to_vec of_slice sample_frame default_frame_limit sample_bytes
      sample-Decodes sample_frame-InRange written

decode-Fine_example : Fine (decode of_slice (b'V' ∷ b'H' ∷ []))
decode-Fine_example = decode-Fine of_slice (b'V' ∷ b'H' ∷ [])
