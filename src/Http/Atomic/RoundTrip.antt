-- ===== src/Http/Atomic/RoundTrip.antt =====
-- `decode_atomic_request` and `decode_atomic_response` read back what the encoders wrote.
use veilid_http.Prelude.{
  ℕ, ◌≤◌, ◌<◌, ◌≡◌, refl, Bool, not, ◌&&◌, length, bytes_eq, some, Result, ok, err, map_err, arith,
  inl, inr, Result-cases, Bool-cases, ok_unique, if◌then◌else◌, bytes_eq_iff,
}
use veilid_http.Prelude.HashMap.{Key}
use veilid_http.Prelude.Int.{pos}
use veilid_http.Prelude.Words.{usize_max}
use veilid_http.Prelude.Text.{ascii, parse_usize-to_decimal}
use veilid_http.Core.Compression
use veilid_http.Core.Compression.{stream_digest, decompress_bounded-below}
use veilid_http.Wire.Reader.{Bytes, done, failed}
use veilid_http.Wire.Limits.{default_frame_limit}
use veilid_http.Wire.FrameType.{FrameType, request_open, atomic_response, to_u8}
use veilid_http.Wire.Frame.{Frame, encode}
use veilid_http.Wire.Frame.{decode as decode_frame}
use veilid_http.Wire.Frame.RoundTrip.{decode-encode_with_limit}
use veilid_http.Stream.Types.{RequestHead, ResponseHead}
use veilid_http.Stream.Crates.{Codec}
use veilid_http.Stream.Codec.RoundTrip.{Restores}
use veilid_http.Http.Error.{wire, core, unexpected_frame}
use veilid_http.Http.Headers.{strip_hop_by_hop}
use veilid_http.Http.Headers.Idempotence.{strip_hop_by_hop_idem}
use veilid_http.Http.Translation.{normalize_request, normalize_request_idem}
use veilid_http.Http.Atomic.{
  AtomicCrates, is_empty, request_head_extension, response_head_extension, atomic_metadata,
  encode_body, encode_atomic_frame, decode_head, decode_payload, decode_body, encode_atomic_request,
  read_request, decode_atomic_request, encode_atomic_response, read_response,
  decode_atomic_response,
}

-- The named laws of the crates: MessagePack, zstd and Base64 restore what they wrote.
pub record Lawful {Method Decoder : Type 0} (crates : AtomicCrates Method Decoder) : Type 0 where
  pub metadata : Restores crates.metadata
  pub request_head : Restores crates.request_head
  pub response_head : Restores crates.response_head
  pub zstd : Compression.Restores crates.encode_all crates.new_decoder crates.read_limited
  pub base64 : (bytes : Bytes) → crates.decode_base64 (crates.encode_base64 bytes) ≡ some bytes

map_err-ok : {E F A : Type 0} (w : E → F) (r : Result E A) (a : A) → map_err w r ≡ ok a → r ≡ ok a
map_err-ok w (ok x) a e = cc
map_err-ok w (err x) a e = cc

module _ {Method Decoder : Type 0} (crates : AtomicCrates Method Decoder)
    (law : Lawful crates) where
  -- The mode that the encoder notes is the one in which the payload was written.
  decode_payload-encode_body :
      (body payload : Bytes) (compress_body : Bool) (limit : ℕ)
      → length body ≤ limit
      → limit < usize_max
      → encode_body crates body compress_body ≡ ok payload
      → decode_payload crates
          (some (if compress_body && not (is_empty body) then ascii "zstd" else ascii "none"))
          payload
          limit
        ≡ ok body
  unfolding decode_payload encode_body
  decode_payload-encode_body body payload compress_body limit h small e =
      elim (Bool-cases (compress_body && not (is_empty body))) [
        | inl q ↦
            rw
              (
                q,
                decompress_bounded-below crates.encode_all crates.new_decoder crates.read_limited
                    body payload (pos 3) limit law.zstd small
                    (map_err-ok core _ payload (rw q at e)),
              )
              (ground arith)
        | inr q ↦ rw q (ground (arith, ok_unique (rw q at e) refl))
      ]

  atomic_frame : FrameType → Key → Key → Bytes → Bytes → Bool → Bytes → Frame
  atomic_frame t id name encoded_head body compress_body payload = record {
    frame_type = t;
    flags = 0;
    transaction_id = id;
    sequence = 0;
    cumulative_ack = 0;
    metadata = atomic_metadata crates name encoded_head body compress_body;
    payload = payload;
  }

  decode_body-atomic_frame :
      (t : FrameType) (id name : Key) (encoded_head body : Bytes) (compress_body : Bool)
      (payload : Bytes) (limit : ℕ)
      → length body ≤ limit
      → limit < usize_max
      → encode_body crates body compress_body ≡ ok payload
      → decode_body crates (atomic_frame t id name encoded_head body compress_body payload) limit
        ≡ ok body
  unfolding decode_body atomic_metadata atomic_frame
  decode_body-atomic_frame t id name encoded_head body compress_body payload limit h small e =
      rw
        (
          parse_usize-to_decimal (length body) (omega arith),
          decode_payload-encode_body body payload compress_body limit h small e,
          law.base64,
        )
        (ground
          (arith, bytes_eq_iff (stream_digest crates.hash body) (stream_digest crates.hash body)))

  decode_head-atomic_frame :
      {T : Type 0} (codec : Codec T) (t : FrameType) (id name : Key) (encoded_head body : Bytes)
      (compress_body : Bool) (payload : Bytes) (head : T)
      → codec.from_slice encoded_head ≡ ok head
      → decode_head crates codec
          (atomic_frame t id name encoded_head body compress_body payload)
          name
        ≡ ok head
  unfolding decode_head atomic_metadata atomic_frame
  decode_head-atomic_frame codec t id name encoded_head body compress_body payload head e =
      rw ((bytes_eq_iff name name).1 refl, e) refl

  -- What a receiver makes of a frame that `encode_atomic_frame` wrote.
  record Carries {T : Type 0} (codec : Codec T) (t : FrameType) (id name : Key) (value : T)
      (logical : Bytes) (limit : ℕ) (frame : Frame) : Type 0 where
    frame_type : frame.frame_type ≡ t
    transaction_id : frame.transaction_id ≡ id
    head : decode_head crates codec frame name ≡ ok value
    body : decode_body crates frame limit ≡ ok logical

  decode_frame-encode_atomic_frame :
      {T : Type 0} (codec : Codec T) (t : FrameType) (id name : Key) (head : T) (body bytes : Bytes)
      (compress_body : Bool) (limit : ℕ)
      → Restores codec
      → length id ≡ 16
      → length body ≤ limit
      → limit < usize_max
      → encode_atomic_frame crates codec t id name head body compress_body ≡ ok bytes
      → (frame : Frame) × (decode_frame crates.metadata.from_slice bytes ≡ done frame)
        × Carries codec t id name head body limit frame
  unfolding encode_atomic_frame encode atomic_frame
  decode_frame-encode_atomic_frame codec t id name head body bytes compress_body limit restores
        sixteen h small e =
      elim (Result-cases (codec.to_vec_named head)) [
        | inr (x, q) ↦ absurd (ground (arith, q))
        | inl (encoded_head, q) ↦ elim (Result-cases (encode_body crates body compress_body)) [
          | inr (x, r) ↦ absurd (ground (arith, q, r))
          | inl (payload, r) ↦
              let frame = atomic_frame t id name encoded_head body compress_body payload in
              (
                frame,
                (decode-encode_with_limit crates.metadata.to_vec_named crates.metadata.from_slice
                    frame default_frame_limit bytes law.metadata
                    (record {
                      flags = omega arith;
                      id = sixteen;
                      sequence = omega arith;
                      cumulative_ack = omega arith;
                    })
                    (map_err-ok wire _ bytes (rw (q, r) at e))).0,
                record {
                  frame_type = refl;
                  transaction_id = refl;
                  head =
                      decode_head-atomic_frame codec t id name encoded_head body compress_body
                        payload head (restores head encoded_head q);
                  body =
                      decode_body-atomic_frame t id name encoded_head body compress_body payload
                        limit h small r;
                },
              )
        ]
      ]

  -- Where MessagePack, zstd and Base64 restore what they wrote: an accepted request head, a 16-byte
  -- identifier and a body within the receiver's limit (below `usize::MAX`), once encoded into a
  -- frame, with compression asked for or not, are decoded to the identifier, the normalised head and
  -- the same body.
  pub decode_atomic_request-encode_atomic_request :
      (id : Key) (head normal : RequestHead) (body encoded : Bytes) (compress_body : Bool)
      (limit : ℕ)
      → length id ≡ 16
      → length body ≤ limit
      → limit < usize_max
      → normalize_request crates.methods head ≡ ok normal
      → encode_atomic_request crates id head body compress_body ≡ ok encoded
      → decode_atomic_request crates encoded limit
        ≡ done (record { transaction_id = id; head = normal; body = body })
  unfolding encode_atomic_request decode_atomic_request read_request to_u8
  decode_atomic_request-encode_atomic_request id head normal body encoded compress_body limit
        sixteen h small n e =
      let (frame, decoded, c) =
        decode_frame-encode_atomic_frame crates.request_head request_open id request_head_extension
          normal body encoded compress_body limit law.request_head sixteen h small (rw n at e) in
      rw
        (
          decoded,
          decode_atomic_request,
          c.frame_type,
          c.head,
          normalize_request_idem crates.methods head normal n,
          c.body,
          c.transaction_id,
        )
        refl

  -- Where MessagePack, zstd and Base64 restore what they wrote: an encoded response with a 16-byte
  -- identifier and a body within the receiver's limit (below `usize::MAX`) is decoded, by the one who
  -- expects its identifier, to that identifier, the status, the end-to-end header fields and the same
  -- body; whoever expects another identifier is answered `UnexpectedFrame`.
  pub decode_atomic_response-encode_atomic_response :
      (id expected : Key) (head : ResponseHead) (body encoded : Bytes) (compress_body : Bool)
      (limit : ℕ)
      → length id ≡ 16
      → length body ≤ limit
      → limit < usize_max
      → encode_atomic_response crates id head body compress_body ≡ ok encoded
      → decode_atomic_response crates encoded expected limit ≡ (
          if bytes_eq id expected
          then done (record {
            transaction_id = id;
            head = record head { headers = strip_hop_by_hop head.headers };
            body = body;
          })
          else failed unexpected_frame)
  unfolding encode_atomic_response decode_atomic_response read_response to_u8
  decode_atomic_response-encode_atomic_response id expected head body encoded compress_body limit
        sixteen h small e =
      let (frame, decoded, c) =
        decode_frame-encode_atomic_frame crates.response_head atomic_response id
          response_head_extension
          (record { status = head.status; headers = strip_hop_by_hop head.headers }) body encoded
          compress_body limit law.response_head sixteen h small e in
      elim (Bool-cases (bytes_eq id expected)) [
        | inl same ↦
            rw
              (
                decoded,
                decode_atomic_response,
                c.frame_type,
                c.transaction_id,
                same,
                c.head,
                strip_hop_by_hop_idem head.headers,
                c.body,
              )
              refl
        | inr other ↦
            rw (decoded, decode_atomic_response, c.frame_type, c.transaction_id, other) refl
      ]
