-- ===== src/Bridge/Atomic.antt =====
-- `small_error_response` and `forward_atomic` of
-- apps/veilid-http-bridge/src/main.rs: a request in one frame, and its response in one.
--
-- The HTTP client, the transport, the clocks and the sleep change or read the world `W`. What is
-- only logged is left out, and with it whether a reply or a record's file could be written.
pub mod Calls
use veilid_http.Prelude.{
  ℕ, ◌+◌, ◌-◌, ◌*◌, min, Bool, true, false, ltb, leb, if◌then◌else◌, length, ◌++◌, Option, none,
  some, List, [], ◌∷◌, Result, ok, err, map_err,
}
use veilid_http.Prelude.HashMap.{Key}
use veilid_http.Prelude.Text.{Text, ascii, to_decimal}
use veilid_http.Prelude.Words.{usize_max, saturating_add}
use veilid_http.Wire.Error.{WireError}
use veilid_http.Wire.Reader.{Bytes, done, failed, panicked}
use veilid_http.Wire.Frame.{decode}
use veilid_http.Stream.Types.{HeaderField}
use veilid_http.Http.Error.{AtomicCodecError}
use veilid_http.Http.Translation.{Urls}
use veilid_http.Http.Atomic.{
  AtomicCrates, AtomicRequest, decode_atomic_request, encode_atomic_response,
}
use veilid_http.Completion.{
  CompletionStore, CompletionClaim, execute, replay, wait, Notify, claim, record_completion,
  abandon,
}
use veilid_http.Bridge.Error.{BridgeError, codec, panic}
use veilid_http.Bridge.Upstream.{HeaderTypes, UpstreamRequest, build_request, response_headers}
use veilid_http.Bridge.Config.{Config}

-- What the upstream sends: the chunks of its body as the stream yields them, or a failure's text.
pub record Answer : Type 0 where
  pub status : ℕ
  pub headers : List (Text × Option Text)
  pub chunks : List (Result Text Bytes)

pub data Body : Type 0 where
  whole : Bytes → Body
  broken : Text → Body
  too_large : Body

-- The loop over `response.bytes_stream()`.
pub read_body : ℕ → Bytes → List (Result Text Bytes) → Body
read_body limit body [] = whole body
read_body limit body (err error ∷ chunks) = broken error
read_body limit body (ok chunk ∷ chunks) =
    if ltb limit (saturating_add usize_max (length body) (length chunk))
    then too_large
    else read_body limit (body ++ chunk) chunks

-- The texts of errors, which the crates thiserror and anyhow derive.
pub record Display : Type 0 where
  pub wire : WireError → Text
  pub codec : AtomicCodecError → Text
  pub bridge : BridgeError → Text

-- `unix_seconds` is the store's clock, none before 1970, and `instant` the monotonic one, in
-- milliseconds; `wake` notifies waiters. `sleep` is `timeout(duration, notify.notified())`, with its
-- duration in milliseconds; it answers whether a notification or a stored permit has ended it.
pub record World (Request W : Type 0) : Type 0 where
  pub send : Request → Bytes → W → Result Text Answer × W
  pub app_call_reply : Text → Bytes → W → W
  pub unix_seconds : W → Option ℕ
  pub instant : W → ℕ
  pub wake : List Notify → W → W
  pub sleep : Notify → ℕ → W → Bool × W

abbrev pub nil_id : Key
nil_id = 0 ∷ 0 ∷ 0 ∷ 0 ∷ 0 ∷ 0 ∷ 0 ∷ 0 ∷ 0 ∷ 0 ∷ 0 ∷ 0 ∷ 0 ∷ 0 ∷ 0 ∷ 0 ∷ []

abbrev header : Text → Text → HeaderField
header name value = record { name = name; value = value }

module _ {Method Decoder Url Name Value W : Type 0} (crates : AtomicCrates Method Decoder)
    (urls : Urls Url) (types : HeaderTypes Name Value) (display : Display)
    (world : World (UpstreamRequest Method Url Name Value) W) (config : Config) where
  pub small_error_response : Key → ℕ → Text → Result BridgeError Bytes
  small_error_response transaction_id status body = map_err codec (
      encode_atomic_response crates transaction_id
        (record {
          status = status;
          headers =
              header (ascii "content-type") (ascii "text/plain; charset=utf-8")
              ∷ header (ascii "cache-control") (ascii "no-store")
              ∷ header (ascii "content-length") (to_decimal (length body))
              ∷ [];
        })
        body true)

  -- The response to an upstream's answer.
  relay : Key → Result Text Answer → Result BridgeError Bytes
  relay transaction_id (err error) =
      small_error_response transaction_id 502 (ascii "upstream request failed: " ++ error)
  relay transaction_id (ok answer) =
      elim (read_body config.max_atomic_body_bytes [] answer.chunks) [
        | broken error ↦
            small_error_response transaction_id 502
              (ascii "upstream response stream failed: " ++ error)
        | too_large ↦
            small_error_response transaction_id 409
              (ascii "response requires stream-capable RequestOpen with a client return route")
        | whole body ↦
            elim (encode_atomic_response crates transaction_id
              (record { status = answer.status; headers = response_headers answer.headers }) body
              true) [
                | ok response ↦ ok response
                | err error ↦
                    small_error_response transaction_id 409
                      (ascii "response requires the streamed VHTTP path: " ++ display.codec error)
              ]
      ]

  -- The part of `forward_atomic` after the request has been decoded.
  forward_request : Text → AtomicRequest → W → Result BridgeError Bytes × W
  forward_request site_fingerprint request w =
      elim (build_request types crates.methods urls config.upstream_url config.route_header
        site_fingerprint request.head true) [
          | err error ↦ (err error, w)
          | ok upstream_request ↦
              let (answer, w') = world.send upstream_request request.body w in
              (relay request.transaction_id answer, w')
        ]

  -- `Frame::decode(..).map(|frame| frame.transaction_id).unwrap_or([0; 16])`.
  frame_id : Bytes → Key
  frame_id encoded = elim (decode crates.metadata.from_slice encoded) [
    | done frame ↦ frame.transaction_id
    | failed e ↦ nil_id
    | panicked ↦ nil_id
  ]

  pub forward_atomic : Text → Bytes → W → Result BridgeError Bytes × W
  unfolding forward_request frame_id
  forward_atomic site_fingerprint encoded_request w =
      elim (decode_atomic_request crates encoded_request config.max_atomic_body_bytes) [
        | done request ↦ forward_request site_fingerprint request w
        | failed error ↦ (
          small_error_response (frame_id encoded_request) 400
              (ascii "invalid VHTTP request: " ++ display.codec error),
          w,
        )
        | panicked ↦ (err panic, w)
      ]
