-- ===== src/Ipc.antt =====
-- crates/veilid-http-ipc/src/lib.rs: the frames between Electron and the sidecar.
-- The asynchronous reader is the bytes that its stream still yields; rmp_serde and the writer are
-- parameters.
pub mod Credit
pub mod RoundTrip
mod Tests
use Prim.Native.String.{String}
use veilid_http.Prelude.{
  ℕ, ◌*◌, Bool, true, false, not, ◌||◌, List, [], ◌∷◌, ◌++◌, ltb, ◌==◌, if◌then◌else◌, length, take,
  drop, bytes_eq, Result, ok, err, map_err, reject_if, ◌>>=◌ as bind, ◌>>◌ as after,
}
use veilid_http.Prelude.Words.{u32_max}
use veilid_http.Wire.Reader.{
  Bytes, Outcome, done, failed, panicked, Reader, ◌>>=◌, ◌>>◌, pure, lift, reject, get_u8, get_u16,
  get_u32, get_u64, get_bytes,
}
use veilid_http.Wire.Writer.{put_u8, put_u16, put_u32, put_u64}

-- The bytes of "VHIP".
abbrev magic : Bytes
magic = b'V' ∷ b'H' ∷ b'I' ∷ b'P' ∷ []

abbrev version : ℕ
version = 1

abbrev header_len : ℕ
header_len = 24

abbrev pub max_metadata_bytes : ℕ
max_metadata_bytes = 256 * 1024

abbrev pub max_payload_bytes : ℕ
max_payload_bytes = 1024 * 1024

pub data FrameKind : Type 0 where
  hello request response stream_data stream_end cancel event stream_credit : FrameKind

pub data IoError : Type 0 where
  unexpected_eof : IoError
  other_failure : String → IoError

pub data IpcError : Type 0 where
  io : IoError → IpcError
  invalid_magic : IpcError
  unsupported_version : ℕ → IpcError
  unknown_kind : ℕ → IpcError
  metadata_too_large : ℕ → IpcError
  payload_too_large : ℕ → IpcError
  invalid_stream_credits : ℕ → IpcError
  metadata_encode : String → IpcError
  metadata_decode : String → IpcError

-- `self.kind as u8`.
pub to_u8 : FrameKind → ℕ
to_u8 hello = 1
to_u8 request = 2
to_u8 response = 3
to_u8 stream_data = 4
to_u8 stream_end = 5
to_u8 cancel = 6
to_u8 event = 7
to_u8 stream_credit = 8

pub try_from : ℕ → Result IpcError FrameKind
try_from value =
    if value == 1
    then ok hello
    else if value == 2
    then ok request
    else if value == 3
    then ok response
    else if value == 4
    then ok stream_data
    else if value == 5
    then ok stream_end
    else if value == 6
    then ok cancel
    else if value == 7
    then ok event
    else if value == 8
    then ok stream_credit
    else err (unknown_kind value)

pub record IpcFrame : Type 0 where
  pub kind : FrameKind
  pub flags : ℕ
  pub request_id : ℕ
  pub metadata : Bytes
  pub payload : Bytes

-- `IpcFrame::validate`.
pub validate : IpcFrame → Result IpcError (Unit {0})
validate f =
    if ltb max_metadata_bytes (length f.metadata)
    then err (metadata_too_large (length f.metadata))
    else if ltb max_payload_bytes (length f.payload)
    then err (payload_too_large (length f.payload))
    else ok tt

layout : IpcFrame → Bytes
layout f =
    magic
    ++ (put_u8 version
        ++ (put_u8 (to_u8 f.kind)
            ++ (put_u16 f.flags
                ++ (put_u64 f.request_id
                    ++ (put_u32 (length f.metadata)
                        ++ (put_u32 (length f.payload) ++ (f.metadata ++ f.payload)))))))

pub encode : IpcFrame → Result IpcError Bytes
unfolding validate layout
encode f = after (validate f) (
    after (reject_if (ltb u32_max (length f.metadata)) (metadata_too_large (length f.metadata))) (
      after (reject_if (ltb u32_max (length f.payload)) (payload_too_large (length f.payload)))
        (ok (layout f))))

module _ {T : Type 0} (to_vec_named : T → Result String Bytes)
    (from_slice : Bytes → Result String T) where
  pub from_metadata : FrameKind → ℕ → T → Bytes → Result IpcError IpcFrame
  from_metadata kind request_id metadata payload =
      bind (map_err metadata_encode (to_vec_named metadata)) (λ encoded.
        let frame : IpcFrame = record {
          kind = kind;
          flags = 0;
          request_id = request_id;
          metadata = encoded;
          payload = payload;
        } in
        after (validate frame) (ok frame))

  pub decode_metadata : IpcFrame → Result IpcError T
  decode_metadata f = map_err metadata_decode (from_slice f.metadata)

-- `reader.read_exact` into a buffer of `n` bytes.
read_exact : ℕ → Reader IpcError Bytes
read_exact n s = if ltb (length s) n then failed (io unexpected_eof) else done (take n s, drop n s)

-- The cursor over the 24 header bytes.
read_header : Reader IpcError (FrameKind × ℕ × ℕ × ℕ × ℕ)
read_header = do
  magic' ← get_bytes 4
  reject (not (bytes_eq magic' magic)) invalid_magic
  version' ← get_u8
  reject (not (version' == version)) (unsupported_version version')
  kind_byte ← get_u8
  kind ← lift (try_from kind_byte)
  flags ← get_u16
  request_id ← get_u64
  metadata_len ← get_u32
  payload_len ← get_u32
  reject (ltb max_metadata_bytes metadata_len) (metadata_too_large metadata_len)
  reject (ltb max_payload_bytes payload_len) (payload_too_large payload_len)
  pure (kind, flags, request_id, metadata_len, payload_len)

-- An action on the cursor `header`, which leaves the stream as it is.
within : {A : Type 0} → Reader IpcError A → Bytes → Reader IpcError A
within m header s = elim (m header) [
  | done (a, rest) ↦ done (a, s)
  | failed e ↦ failed e
  | panicked ↦ panicked
]

pub read_frame : Reader IpcError IpcFrame
unfolding read_exact read_header within
read_frame = do
  header ← read_exact header_len
  (kind, flags, request_id, metadata_len, payload_len) ← within read_header header
  metadata ← read_exact metadata_len
  payload ← read_exact payload_len
  pure (record {
    kind = kind;
    flags = flags;
    request_id = request_id;
    metadata = metadata;
    payload = payload;
  })

-- `write_all` and `flush` of the asynchronous writer.
module _ {Writer : Type 0} (write_all : Writer → Bytes → Result IoError Writer)
    (flush : Writer → Result IoError Writer) where
  pub write_frame : Writer → IpcFrame → Result IpcError Writer
  write_frame writer frame =
      bind (encode frame) (λ bytes.
        bind (map_err io (write_all writer bytes)) (λ writer'. map_err io (flush writer')))
