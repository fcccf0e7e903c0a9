-- ===== src/Http/Atomic.antt =====
-- The atomic codec of crates/veilid-http-http/src/lib.rs: a complete request or response in one frame.
-- The crates http, rmp_serde, zstd, blake3 and base64 are parameters.
pub mod RoundTrip
mod Tests
use Prim.Native.String.{String}
use veilid_http.Prelude.{
  ℕ, Bool, true, false, not, ◌&&◌, ◌||◌, List, [], ◌∷◌, ◌==◌, ltb, if◌then◌else◌, length, bytes_eq,
  Option, none, some, Result, ok, err, map_err, reject_if, ok_or, ◌>>=◌, ◌>>◌,
}
use veilid_http.Prelude.HashMap.{Key, get, insert}
use veilid_http.Prelude.Int.{ℤ, pos}
use veilid_http.Prelude.Text.{Text, ascii, parse_usize, to_decimal}
use veilid_http.Core.Error.{decompressed_limit}
use veilid_http.Core.Compression.{compress, decompress_bounded, stream_digest}
use veilid_http.Wire.Reader.{Bytes, Outcome, done, failed, panicked}
use veilid_http.Wire.FrameType.{FrameType, request_open, atomic_response, to_u8}
use veilid_http.Wire.Metadata.{Metadata}
use veilid_http.Wire.Frame.{Frame}
use veilid_http.Wire.Frame.{encode as encode_frame, decode as decode_frame}
use veilid_http.Stream.Types.{RequestHead, ResponseHead}
use veilid_http.Stream.Crates.{Codec}
use veilid_http.Http.Error.{
  AtomicCodecError, wire, http, metadata_encode, metadata_decode, core, unexpected_frame,
  missing_metadata, invalid_body_metadata, length_mismatch, digest_mismatch,
}
use veilid_http.Http.Headers.{strip_hop_by_hop}
use veilid_http.Http.Translation.{Methods, normalize_request}

abbrev pub request_head_extension : Key
request_head_extension = ascii "org.veilidhttp.request-head/v1"

abbrev pub response_head_extension : Key
response_head_extension = ascii "org.veilidhttp.response-head/v1"

abbrev compression_key : Key
compression_key = ascii "compression"

abbrev logical_length_key : Key
logical_length_key = ascii "logical-length"

abbrev digest_key : Key
digest_key = ascii "blake3"

pub record AtomicRequest : Type 0 where
  pub transaction_id : Key
  pub head : RequestHead
  pub body : Bytes

pub record AtomicResponse : Type 0 where
  pub transaction_id : Key
  pub head : ResponseHead
  pub body : Bytes

-- What the codec calls. `encode_base64` and `decode_base64` are those of `URL_SAFE_NO_PAD`.
pub record AtomicCrates (Method Decoder : Type 0) : Type 0 where
  pub methods : Methods Method
  pub metadata : Codec Metadata
  pub request_head : Codec RequestHead
  pub response_head : Codec ResponseHead
  pub hash : Bytes → Bytes
  pub encode_base64 : Bytes → Text
  pub decode_base64 : Text → Option Bytes
  pub encode_all : Bytes → ℤ → Result String Bytes
  pub new_decoder : Bytes → Result String Decoder
  pub read_limited : Decoder → ℕ → Result String Bytes

abbrev is_empty : Bytes → Bool
is_empty [] = true
is_empty (b ∷ s) = false

abbrev to_outcome {ℓ} : {A : Type ℓ} → Result AtomicCodecError A → Outcome AtomicCodecError A
to_outcome (ok a) = done a
to_outcome (err e) = failed e

module _ {Method Decoder : Type 0} (crates : AtomicCrates Method Decoder) where
  encode_body : Bytes → Bool → Result AtomicCodecError Bytes
  encode_body body compress_body =
      if compress_body && not (is_empty body)
      then map_err core (compress crates.encode_all body (pos 3))
      else ok body

  atomic_metadata : Key → Bytes → Bytes → Bool → Metadata
  atomic_metadata extension_name encoded_head body compress_body = record {
    http = [];
    vhttp = insert digest_key (crates.encode_base64 (stream_digest crates.hash body)) (
        insert logical_length_key (to_decimal (length body)) (
          insert compression_key
            (if compress_body && not (is_empty body) then ascii "zstd" else ascii "none") []));
    extensions = insert extension_name encoded_head [];
  }

  encode_atomic_frame :
      {T : Type 0}
      → Codec T
      → FrameType
      → Key
      → Key
      → T
      → Bytes
      → Bool
      → Result AtomicCodecError Bytes
  unfolding encode_body atomic_metadata
  encode_atomic_frame codec frame_type transaction_id extension_name head body compress_body = do
    encoded_head ← map_err metadata_encode (codec.to_vec_named head)
    payload ← encode_body body compress_body
    map_err wire (
        encode_frame crates.metadata.to_vec_named (record {
          frame_type = frame_type;
          flags = 0;
          transaction_id = transaction_id;
          sequence = 0;
          cumulative_ack = 0;
          metadata = atomic_metadata extension_name encoded_head body compress_body;
          payload = payload;
        }))

  decode_head : {T : Type 0} → Codec T → Frame → Key → Result AtomicCodecError T
  decode_head codec frame extension_name = do
    bytes ← ok_or (get extension_name frame.metadata.extensions) missing_metadata
    map_err metadata_decode (codec.from_slice bytes)

  -- `match frame.metadata.vhttp.get(COMPRESSION_KEY)`.
  decode_payload : Option Text → Bytes → ℕ → Result AtomicCodecError Bytes
  decode_payload none payload limit = err invalid_body_metadata
  decode_payload (some mode) payload limit =
      if bytes_eq mode (ascii "none")
      then ok payload
      else if bytes_eq mode (ascii "zstd")
      then map_err core (decompress_bounded crates.new_decoder crates.read_limited payload limit)
      else err invalid_body_metadata

  decode_body : Frame → ℕ → Result AtomicCodecError Bytes
  unfolding decode_payload
  decode_body frame max_logical_body = do
    text ← ok_or (get logical_length_key frame.metadata.vhttp) invalid_body_metadata
    logical_length ← ok_or (parse_usize text) invalid_body_metadata
    reject_if (ltb max_logical_body logical_length)
        (core (decompressed_limit logical_length max_logical_body))
    body ← decode_payload (get compression_key frame.metadata.vhttp) frame.payload max_logical_body
    reject_if (not (length body == logical_length)) length_mismatch
    encoded ← ok_or (get digest_key frame.metadata.vhttp) invalid_body_metadata
    expected_digest ← ok_or (crates.decode_base64 encoded) invalid_body_metadata
    reject_if (not (bytes_eq expected_digest (stream_digest crates.hash body))) digest_mismatch
    ok body

  pub encode_atomic_request : Key → RequestHead → Bytes → Bool → Result AtomicCodecError Bytes
  unfolding encode_atomic_frame
  encode_atomic_request transaction_id head body compress_body = do
    head' ← map_err http (normalize_request crates.methods head)
    encode_atomic_frame crates.request_head request_open transaction_id request_head_extension head'
        body compress_body

  -- The part of `decode_atomic_request` after the frame has been decoded.
  read_request : Frame → ℕ → Result AtomicCodecError AtomicRequest
  unfolding decode_head decode_body
  read_request frame max_logical_body = do
    reject_if (not (to_u8 frame.frame_type == to_u8 request_open)) unexpected_frame
    head ← decode_head crates.request_head frame request_head_extension
    head' ← map_err http (normalize_request crates.methods head)
    body ← decode_body frame max_logical_body
    ok (record { transaction_id = frame.transaction_id; head = head'; body = body })

  unfoldable pub decode_atomic_request : Bytes → ℕ → Outcome AtomicCodecError AtomicRequest
  unfolding read_request
  decode_atomic_request encoded max_logical_body =
      elim (decode_frame crates.metadata.from_slice encoded) [
        | done frame ↦ to_outcome (read_request frame max_logical_body)
        | failed e ↦ failed (wire e)
        | panicked ↦ panicked
      ]

  unfoldable pub encode_atomic_response :
      Key → ResponseHead → Bytes → Bool → Result AtomicCodecError Bytes
  unfolding encode_atomic_frame
  encode_atomic_response transaction_id head body compress_body =
      encode_atomic_frame crates.response_head atomic_response transaction_id
        response_head_extension
        (record { status = head.status; headers = strip_hop_by_hop head.headers }) body
        compress_body

  -- The part of `decode_atomic_response` after the frame has been decoded.
  read_response : Frame → Key → ℕ → Result AtomicCodecError AtomicResponse
  unfolding decode_head decode_body
  read_response frame expected_transaction_id max_logical_body = do
    reject_if
        (not (to_u8 frame.frame_type == to_u8 atomic_response)
          || not (bytes_eq frame.transaction_id expected_transaction_id))
        unexpected_frame
    head ← decode_head crates.response_head frame response_head_extension
    body ← decode_body frame max_logical_body
    ok (record {
      transaction_id = frame.transaction_id;
      head = record head { headers = strip_hop_by_hop head.headers };
      body = body;
    })

  pub decode_atomic_response : Bytes → Key → ℕ → Outcome AtomicCodecError AtomicResponse
  unfolding read_response
  decode_atomic_response encoded expected_transaction_id max_logical_body =
      elim (decode_frame crates.metadata.from_slice encoded) [
        | done frame ↦ to_outcome (read_response frame expected_transaction_id max_logical_body)
        | failed e ↦ failed (wire e)
        | panicked ↦ panicked
      ]
