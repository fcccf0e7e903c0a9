-- ===== src/Bridge/Bundling/Tests.antt =====
-- Bundling with a transport that keeps the messages it accepts.
use veilid_http.Prelude.{◌≡◌, refl, List, [], ◌∷◌, ◌++◌, ok}
use veilid_http.Prelude.Stateful.{Action}
use veilid_http.Wire.Reader.{Bytes}
use veilid_http.Wire.Sample.{
  to_vec, of_slice, sample-Decodes, sample_bytes, sample_frame, sample_frame-InRange,
}
use veilid_http.Wire.FrameType.{to_u8}
use veilid_http.Wire.Frame.{encode_with_limit}
use veilid_http.Wire.Frame.RoundTrip.{decode-encode_with_limit}
use veilid_http.Wire.Bundle.RoundTrip.{Decodable}
use veilid_http.Transport.{RouteTarget, TransportError}
use veilid_http.Bridge.Bundling.{send_encoded_frames, send_bundle}
use veilid_http.Bridge.Bundling.RoundTrip.{Accepts, SendsAll, send_encoded_frames-SendsAll}

abbrev Messages : Type 0
Messages = List (RouteTarget × Bytes)

abbrev keep_message : RouteTarget → Bytes → Action TransportError Messages (Unit {0})
keep_message target payload w = (ok tt, w ++ (target, payload) ∷ [])

keep_message-Accepts : Accepts keep_message (λ w. w)
keep_message-Accepts = record {
  accepts = λ target payload w. (w ++ (target, payload) ∷ [], refl, refl);
}

abbrev target : RouteTarget
target = b'r' ∷ []

sample_bytes-Decodable : Decodable of_slice sample_bytes
unfolding encode_with_limit to_u8
sample_bytes-Decodable = (
  sample_frame,
  (decode-encode_with_limit to_vec of_slice sample_frame 30720 sample_bytes sample-Decodes
      sample_frame-InRange refl).0,
)

-- Two frames go out in one bundle, one frame goes out as it is.
send_encoded_frames_test :
    send_encoded_frames keep_message target (sample_bytes ∷ []) []
    ≡ (ok tt, (target, sample_bytes) ∷ [])
unfolding send_encoded_frames send_bundle
send_encoded_frames_test = refl

send_encoded_frames-SendsAll_example :
    SendsAll of_slice keep_message
      (λ w. w)
      keep_message-Accepts
      target
      (sample_bytes ∷ sample_bytes ∷ [])
      []
      (send_encoded_frames keep_message target (sample_bytes ∷ sample_bytes ∷ []) [])
send_encoded_frames-SendsAll_example =
    send_encoded_frames-SendsAll of_slice keep_message (λ w. w) keep_message-Accepts target
      (sample_bytes ∷ sample_bytes ∷ []) [] (sample_bytes-Decodable, (sample_bytes-Decodable, tt))
