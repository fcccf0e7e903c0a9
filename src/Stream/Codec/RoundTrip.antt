-- ===== src/Stream/Codec/RoundTrip.antt =====
-- `decode` reads back what the `encode_*` functions wrote.
use veilid_http.Prelude.{
  ℕ, ◌≤◌, ◌≡◌, refl, [], length, Result, ok, err, map_err, arith, inl, inr, Result-cases,
}
use veilid_http.Prelude.HashMap.{Key}
use veilid_http.Prelude.Words.{u32_max}
use veilid_http.Wire.Reader.{Bytes, done}
use veilid_http.Wire.Limits.{default_frame_limit}
use veilid_http.Wire.FrameType.{
  FrameType, request_open, request_accepted, response_open, ack, cancel, error,
}
use veilid_http.Wire.Frame.{Frame, encode}
use veilid_http.Wire.Frame.RoundTrip.{InRange, decode-encode_with_limit}
use veilid_http.Stream.Types.{
  StreamDirection, request, response, StreamEnd, DecodedFrame, data_frame, end_frame, other,
  same_direction, request_open_extension, request_accepted_extension, response_open_extension,
  stream_end_extension, ack_extension, cancel_extension, error_extension,
}
use veilid_http.Stream.Types
use veilid_http.Stream.Error.{wire}
use veilid_http.Stream.Crates.{Codec, MessagePack}
use veilid_http.Stream.Codec.{
  end_type, extension_of, data_of, extension_frame, encode_request_open, encode_request_accepted,
  encode_response_open, encode_data, encode_end, encode_ack, encode_cancel, encode_error,
  decode_extension, decode_end, interpret_as, decode,
}

-- The named law of MessagePack at one type: what is written for a value is read back.
abbrev pub Restores : {T : Type 0} → Codec T → Type 0
Restores {T} codec =
    (v : T) (bytes : Bytes) → codec.to_vec_named v ≡ ok bytes → codec.from_slice bytes ≡ ok v

pub record Lawful (mp : MessagePack) : Type 0 where
  pub metadata : Restores mp.metadata
  pub request_open : Restores mp.request_open
  pub request_accepted : Restores mp.request_accepted
  pub response_open : Restores mp.response_open
  pub stream_end : Restores mp.stream_end
  pub ack : Restores mp.ack
  pub cancel : Restores mp.cancel
  pub stream_error : Restores mp.stream_error

-- `bytes` is what the layer's encoder for that kind of frame answers.
abbrev pub Encodes : MessagePack → DecodedFrame → Bytes → Type 0
Encodes mp (Types.request_open id v p) bytes = encode_request_open mp id v p ≡ ok bytes
Encodes mp (Types.request_accepted id v) bytes = encode_request_accepted mp id v ≡ ok bytes
Encodes mp (Types.response_open id v p) bytes = encode_response_open mp id v p ≡ ok bytes
Encodes mp (data_frame id d s p) bytes = encode_data mp id d s p ≡ ok bytes
Encodes mp (end_frame id s v) bytes = encode_end mp id s v ≡ ok bytes
Encodes mp (Types.ack id v) bytes = encode_ack mp id v ≡ ok bytes
Encodes mp (Types.cancel id v) bytes = encode_cancel mp id v ≡ ok bytes
Encodes mp (Types.error id v) bytes = encode_error mp id v ≡ ok bytes
Encodes mp (Types.other f) bytes = ⊥

-- Identifiers have 16 bytes and sequence numbers fit u32.
abbrev pub FitsFrame : DecodedFrame → Type 0
FitsFrame (Types.request_open id v p) = length id ≡ 16
FitsFrame (Types.request_accepted id v) = length id ≡ 16
FitsFrame (Types.response_open id v p) = length id ≡ 16
FitsFrame (data_frame id d s p) = (length id ≡ 16) × (s ≤ u32_max)
FitsFrame (end_frame id s v) = (length id ≡ 16) × (s ≤ u32_max)
FitsFrame (Types.ack id v) = length id ≡ 16
FitsFrame (Types.cancel id v) = length id ≡ 16
FitsFrame (Types.error id v) = length id ≡ 16
FitsFrame (Types.other f) = Unit {0}

map_err-ok : {E F A : Type 0} (w : E → F) (r : Result E A) (a : A) → map_err w r ≡ ok a → r ≡ ok a
map_err-ok w (ok x) a e = cc
map_err-ok w (err x) a e = cc

module _ (mp : MessagePack) (law : Restores mp.metadata) where
  -- A frame that the wire accepts is interpreted by its own type.
  decode-wire :
      (f : Frame) (bytes : Bytes) (d : DecodedFrame)
      → InRange f
      → map_err wire (encode mp.metadata.to_vec_named f) ≡ ok bytes
      → interpret_as mp f.frame_type f ≡ ok d
      → decode mp bytes ≡ done d
  unfolding decode encode
  decode-wire f bytes d r e q =
      rw
        (
          (decode-encode_with_limit mp.metadata.to_vec_named mp.metadata.from_slice f
              default_frame_limit bytes law r
              (map_err-ok wire (encode mp.metadata.to_vec_named f) bytes e)).0,
          q,
          decode,
        )
        refl

  decode-extension_frame :
      {T : Type 0} (codec : Codec T) (t : FrameType) (id : Key) (s : ℕ) (name : Key) (v : T)
      (payload bytes : Bytes) (d : DecodedFrame)
      → length id ≡ 16
      → s ≤ u32_max
      → extension_frame mp codec t id s name v payload ≡ ok bytes
      → ((encoded : Bytes)
          → codec.to_vec_named v ≡ ok encoded
          → interpret_as mp t (extension_of t id s name encoded payload) ≡ ok d)
      → decode mp bytes ≡ done d
  unfolding extension_frame
  decode-extension_frame codec t id s name v payload bytes d h hs e k =
      elim (Result-cases (codec.to_vec_named v)) [
        | inr (x, q) ↦ absurd (ground (arith, q))
        | inl (encoded, q) ↦
            decode-wire (extension_of t id s name encoded payload) bytes d
              (record { flags = omega arith; id = h; sequence = hs; cumulative_ack = omega arith })
              (rw q at e) (k encoded q)
      ]

module _ (mp : MessagePack) (law : Lawful mp) where
  interpret_as-end :
      (dir : StreamDirection) (id : Key) (s : ℕ) (v : StreamEnd) (encoded : Bytes)
      → v.direction ≡ dir
      → mp.stream_end.from_slice encoded ≡ ok v
      → interpret_as mp
          (end_type dir)
          (extension_of (end_type dir) id s stream_end_extension encoded [])
        ≡ ok (end_frame id s v)
  unfolding interpret_as decode_end decode_extension same_direction
  interpret_as-end request id s v encoded h q = rw (q, h) refl
  interpret_as-end response id s v encoded h q = rw (q, h) refl

  -- Where MessagePack restores what it wrote: every frame of the streaming layer with a 16-byte
  -- identifier and a u32 sequence number that its encoder accepts, `decode` reads back as that
  -- frame, with its kind, identifier, sequence number, direction, value and payload.
  pub decode-encode_frame :
      (d : DecodedFrame) (bytes : Bytes)
      → FitsFrame d
      → Encodes mp d bytes
      → decode mp bytes ≡ done d
  unfolding encode_data encode_request_open encode_request_accepted encode_response_open encode_end
      encode_ack encode_cancel encode_error interpret_as decode_extension decode_end
  decode-encode_frame (Types.request_open id v p) bytes h e =
      decode-extension_frame mp law.metadata mp.request_open request_open id 0
        request_open_extension v p bytes _ h (omega arith) e
        (λ encoded q. rw (law.request_open v encoded q) refl)
  decode-encode_frame (Types.request_accepted id v) bytes h e =
      decode-extension_frame mp law.metadata mp.request_accepted request_accepted id 0
        request_accepted_extension v [] bytes _ h (omega arith) e
        (λ encoded q. rw (law.request_accepted v encoded q) refl)
  decode-encode_frame (Types.response_open id v p) bytes h e =
      decode-extension_frame mp law.metadata mp.response_open response_open id 0
        response_open_extension v p bytes _ h (omega arith) e
        (λ encoded q. rw (law.response_open v encoded q) refl)
  decode-encode_frame (data_frame id request s p) bytes h e =
      decode-wire mp law.metadata (data_of id request s p) bytes (data_frame id request s p)
        (record { flags = omega arith; id = h.0; sequence = h.1; cumulative_ack = omega arith }) e
        refl
  decode-encode_frame (data_frame id response s p) bytes h e =
      decode-wire mp law.metadata (data_of id response s p) bytes (data_frame id response s p)
        (record { flags = omega arith; id = h.0; sequence = h.1; cumulative_ack = omega arith }) e
        refl
  decode-encode_frame (end_frame id s v) bytes h e =
      decode-extension_frame mp law.metadata mp.stream_end (end_type v.direction) id s
        stream_end_extension v [] bytes _ h.0 h.1 e
        (λ encoded q. interpret_as-end v.direction id s v encoded refl (law.stream_end v encoded q))
  decode-encode_frame (Types.ack id v) bytes h e =
      decode-extension_frame mp law.metadata mp.ack ack id 0 ack_extension v [] bytes _ h
        (omega arith) e (λ encoded q. rw (law.ack v encoded q) refl)
  decode-encode_frame (Types.cancel id v) bytes h e =
      decode-extension_frame mp law.metadata mp.cancel cancel id 0 cancel_extension v [] bytes _ h
        (omega arith) e (λ encoded q. rw (law.cancel v encoded q) refl)
  decode-encode_frame (Types.error id v) bytes h e =
      decode-extension_frame mp law.metadata mp.stream_error error id 0 error_extension v [] bytes _
        h (omega arith) e (λ encoded q. rw (law.stream_error v encoded q) refl)
  decode-encode_frame (Types.other f) bytes h e = absurd e
