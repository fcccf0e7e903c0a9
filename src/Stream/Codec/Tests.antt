-- ===== src/Stream/Codec/Tests.antt =====
-- A data frame written and read.
use veilid_http.Prelude.{◌≡◌, refl, [], ◌∷◌, ok, arith}
use veilid_http.Prelude.HashMap.{Key}
use veilid_http.Wire.Reader.{Bytes, done}
use veilid_http.Wire.Frame.{encode, encode_with_limit}
use veilid_http.Wire.FrameType.{to_u8}
use veilid_http.Stream.Types.{request, data_frame}
use veilid_http.Stream.Codec.{encode_data, decode}
use veilid_http.Stream.Codec.RoundTrip.{decode-encode_frame}
use veilid_http.Stream.Sample.{sample_mp, sample-Lawful}

abbrev sevens : Key
sevens = 7 ∷ 7 ∷ 7 ∷ 7 ∷ 7 ∷ 7 ∷ 7 ∷ 7 ∷ 7 ∷ 7 ∷ 7 ∷ 7 ∷ 7 ∷ 7 ∷ 7 ∷ 7 ∷ []

abbrev data_bytes : Bytes
data_bytes =
    b'V' ∷ b'H' ∷ b'T' ∷ b'P' ∷ 1 ∷ 4 ∷ 0 ∷ 0 ∷ 7 ∷ 7 ∷ 7 ∷ 7 ∷ 7 ∷ 7 ∷ 7 ∷ 7 ∷ 7 ∷ 7 ∷ 7 ∷ 7 ∷ 7
    ∷ 7 ∷ 7 ∷ 7 ∷ 0 ∷ 0 ∷ 0 ∷ 4 ∷ 0 ∷ 0 ∷ 0 ∷ 0 ∷ 0 ∷ 1 ∷ 0 ∷ 0 ∷ 0 ∷ 0 ∷ 0 ∷ 2 ∷ 0x80 ∷ b'h' ∷ b'i'
    ∷ []

written : encode_data sample_mp sevens request 4 (b'h' ∷ b'i' ∷ []) ≡ ok data_bytes
unfolding encode_data encode encode_with_limit to_u8
written = refl

decode-encode_frame_example :
    decode sample_mp data_bytes ≡ done (data_frame sevens request 4 (b'h' ∷ b'i' ∷ []))
decode-encode_frame_example =
    decode-encode_frame sample_mp sample-Lawful (data_frame sevens request 4 (b'h' ∷ b'i' ∷ []))
      data_bytes (refl, omega arith) written
