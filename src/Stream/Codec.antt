-- ===== src/Stream/Codec.antt =====
-- The frame codec of crates/veilid-http-stream/src/lib.rs: `encode_*`, `decode` and their helpers.
pub mod RoundTrip
mod Tests
use veilid_http.Prelude.{
  ℕ, Bool, true, false, not, ◌==◌, if◌then◌else◌, Option, none, some, List, [], ◌∷◌, Result, ok,
  err, map_err, ◌>>=◌ as bind,
}
use veilid_http.Prelude.HashMap.{Key, get, insert, contains_key}
use veilid_http.Wire.Reader.{Bytes, Outcome, done, failed, panicked}
use veilid_http.Wire.FrameType.{
  FrameType, to_u8, negotiate, request_open, request_accepted, request_data, request_end,
  response_open, response_data, response_end, atomic_response, ack, cancel, error, status,
}
use veilid_http.Wire.Metadata.{Metadata, default}
use veilid_http.Wire.Frame.{Frame, encode, decode as decode_frame}
use veilid_http.Stream.Types.{
  StreamDirection, request, response, RequestOpen, RequestAccepted, ResponseOpen, StreamEnd, Ack,
  Cancel, StreamError, DecodedFrame, data_frame, end_frame, other, same_direction,
  request_open_extension, request_accepted_extension, response_open_extension, stream_end_extension,
  ack_extension, cancel_extension, error_extension,
}
use veilid_http.Stream.Types
use veilid_http.Stream.Error.{
  StreamProtocolError, wire, metadata_encode, metadata_decode, missing, malformed,
  direction_mismatch,
}
use veilid_http.Stream.Crates.{Codec, MessagePack}

-- `Metadata::default()` with the one extension inserted.
abbrev with_extension : Key → Bytes → Metadata
with_extension name encoded = record default { extensions = insert name encoded [] }

abbrev data_type : StreamDirection → FrameType
data_type request = request_data
data_type response = response_data

abbrev end_type : StreamDirection → FrameType
end_type request = request_end
end_type response = response_end

-- The two kinds of frames that the layer writes.
abbrev extension_of : FrameType → Key → ℕ → Key → Bytes → Bytes → Frame
extension_of frame_type transaction_id sequence name encoded payload = record {
  frame_type = frame_type;
  flags = 0;
  transaction_id = transaction_id;
  sequence = sequence;
  cumulative_ack = 0;
  metadata = with_extension name encoded;
  payload = payload;
}

abbrev data_of : Key → StreamDirection → ℕ → Bytes → Frame
data_of transaction_id direction sequence payload = record {
  frame_type = data_type direction;
  flags = 0;
  transaction_id = transaction_id;
  sequence = sequence;
  cumulative_ack = 0;
  metadata = default;
  payload = payload;
}

module _ (mp : MessagePack) where
  unfoldable pub extension_frame :
      {T : Type 0}
      → Codec T
      → FrameType
      → Key
      → ℕ
      → Key
      → T
      → Bytes
      → Result StreamProtocolError Bytes
  extension_frame codec frame_type transaction_id sequence name value payload =
      bind (map_err metadata_encode (codec.to_vec_named value)) (λ encoded. map_err wire (
        encode mp.metadata.to_vec_named
          (extension_of frame_type transaction_id sequence name encoded payload)))

  unfoldable pub encode_request_open : Key → RequestOpen → Bytes → Result StreamProtocolError Bytes
  encode_request_open id value initial_payload =
      extension_frame mp.request_open request_open id 0 request_open_extension value initial_payload

  pub encode_request_accepted : Key → RequestAccepted → Result StreamProtocolError Bytes
  encode_request_accepted id value =
      extension_frame mp.request_accepted request_accepted id 0 request_accepted_extension value []

  pub encode_response_open : Key → ResponseOpen → Bytes → Result StreamProtocolError Bytes
  encode_response_open id value initial_payload =
      extension_frame mp.response_open response_open id 0 response_open_extension value
        initial_payload

  pub encode_data : Key → StreamDirection → ℕ → Bytes → Result StreamProtocolError Bytes
  encode_data id direction sequence payload =
      map_err wire (encode mp.metadata.to_vec_named (data_of id direction sequence payload))

  pub encode_end : Key → ℕ → StreamEnd → Result StreamProtocolError Bytes
  encode_end id sequence value =
      extension_frame mp.stream_end (end_type value.direction) id sequence stream_end_extension
        value []

  pub encode_ack : Key → Ack → Result StreamProtocolError Bytes
  encode_ack id value = extension_frame mp.ack ack id 0 ack_extension value []

  pub encode_cancel : Key → Cancel → Result StreamProtocolError Bytes
  encode_cancel id value = extension_frame mp.cancel cancel id 0 cancel_extension value []

  pub encode_error : Key → StreamError → Result StreamProtocolError Bytes
  encode_error id value = extension_frame mp.stream_error error id 0 error_extension value []

  decode_extension : {T : Type 0} → Codec T → Frame → Key → Result StreamProtocolError T
  decode_extension codec f name = elim (get name f.metadata.extensions) [
    | none ↦ err (metadata_decode (missing name))
    | some bytes ↦ map_err (λ e. metadata_decode (malformed e)) (codec.from_slice bytes)
  ]

  -- The arm of the two end frames; `expected` is the frame type's direction.
  decode_end : Frame → StreamDirection → Result StreamProtocolError DecodedFrame
  decode_end f expected = bind (decode_extension mp.stream_end f stream_end_extension) (λ value.
      if not (same_direction value.direction expected)
      then err direction_mismatch
      else ok (end_frame f.transaction_id f.sequence value))

  -- `match frame.frame_type`.
  interpret_as : FrameType → Frame → Result StreamProtocolError DecodedFrame
  interpret_as request_open f =
      if contains_key request_open_extension f.metadata.extensions
      then bind (decode_extension mp.request_open f request_open_extension)
          (λ value. ok (Types.request_open f.transaction_id value f.payload))
      else ok (other f)
  interpret_as request_accepted f =
      bind (decode_extension mp.request_accepted f request_accepted_extension)
        (λ value. ok (Types.request_accepted f.transaction_id value))
  interpret_as response_open f =
      bind (decode_extension mp.response_open f response_open_extension)
        (λ value. ok (Types.response_open f.transaction_id value f.payload))
  interpret_as request_data f = ok (data_frame f.transaction_id request f.sequence f.payload)
  interpret_as response_data f = ok (data_frame f.transaction_id response f.sequence f.payload)
  interpret_as request_end f = decode_end f request
  interpret_as response_end f = decode_end f response
  interpret_as ack f =
      bind (decode_extension mp.ack f ack_extension)
        (λ value. ok (Types.ack f.transaction_id value))
  interpret_as cancel f =
      bind (decode_extension mp.cancel f cancel_extension)
        (λ value. ok (Types.cancel f.transaction_id value))
  interpret_as error f =
      bind (decode_extension mp.stream_error f error_extension)
        (λ value. ok (Types.error f.transaction_id value))
  interpret_as negotiate f = ok (other f)
  interpret_as atomic_response f = ok (other f)
  interpret_as status f = ok (other f)

  abbrev to_outcome :
      Result StreamProtocolError DecodedFrame → Outcome StreamProtocolError DecodedFrame
  to_outcome (ok d) = done d
  to_outcome (err e) = failed e

  pub decode : Bytes → Outcome StreamProtocolError DecodedFrame
  decode encoded = elim (decode_frame mp.metadata.from_slice encoded) [
    | done f ↦ to_outcome (interpret_as f.frame_type f)
    | failed e ↦ failed (wire e)
    | panicked ↦ panicked
  ]
