-- ===== src/Wire/Bundle/Tests.antt =====
-- A bundle of two frames written and read, and the theorems at it.
use veilid_http.Prelude.{◌≤◌, ◌≡◌, refl, List, [], ◌∷◌, ◌++◌, length, ok, All}
use veilid_http.Wire.Limits.{veilid_message_limit}
use veilid_http.Wire.Reader.{done, Fine, Bytes}
use veilid_http.Wire.Bundle.{encode, decode, length_table}
use veilid_http.Wire.Bundle.RoundTrip.{decode-encode as decode-encode_bundle, Decodable}
use veilid_http.Wire.Bundle.Safety.{decode-Fine_bundle}
use veilid_http.Wire.FrameType.{to_u8}
use veilid_http.Wire.Frame.{encode_with_limit, decode as decode_frame}
use veilid_http.Wire.Frame.RoundTrip.{decode-encode_with_limit}
use veilid_http.Wire.Sample.{
  to_vec, of_slice, sample-Decodes, sample_frame, sample_frame-InRange, sample_bytes,
}

abbrev two : List Bytes
two = sample_bytes ∷ sample_bytes ∷ []

abbrev two_bytes : Bytes
two_bytes =
    b'V'
    ∷ b'H'
    ∷ b'B'
    ∷ b'1'
    ∷ 0
    ∷ 2
    ∷ 0
    ∷ 0
    ∷ 0
    ∷ 0
    ∷ 0
    ∷ 43
    ∷ 0
    ∷ 0
    ∷ 0
    ∷ 43
    ∷ (sample_bytes ++ sample_bytes)

bundled : encode two ≡ ok two_bytes
unfolding encode length_table
bundled = refl

sample_decodes : decode_frame of_slice sample_bytes ≡ done sample_frame
unfolding encode_with_limit to_u8
sample_decodes =
    (decode-encode_with_limit to_vec of_slice sample_frame 100 sample_bytes sample-Decodes
      sample_frame-InRange sample_written).0
  where
    sample_written : encode_with_limit to_vec sample_frame 100 ≡ ok sample_bytes
    sample_written = refl

two-Decodable : All (Decodable of_slice) two
two-Decodable = ((sample_frame, sample_decodes), ((sample_frame, sample_decodes), tt))

decode-encode_example :
    (decode of_slice two_bytes ≡ done two) × (length two_bytes ≤ veilid_message_limit)
decode-encode_example = decode-encode_bundle of_slice two two_bytes two-Decodable bundled

decode-Fine_bundle_example : Fine (decode of_slice (b'V' ∷ b'H' ∷ []))
decode-Fine_bundle_example = decode-Fine_bundle of_slice (b'V' ∷ b'H' ∷ [])
