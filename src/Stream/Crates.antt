-- ===== src/Stream/Crates.antt =====
-- The crates that crates/veilid-http-stream calls, as parameters: rmp_serde, blake3 and zstd.
use Prim.Native.String.{String}
use veilid_http.Prelude.{Result}
use veilid_http.Prelude.Int.{ℤ}
use veilid_http.Wire.Reader.{Bytes}
use veilid_http.Wire.Metadata.{Metadata}
use veilid_http.Stream.Types.{
  RequestOpen, RequestAccepted, ResponseOpen, StreamEnd, Ack, Cancel, StreamError,
}

-- `rmp_serde::to_vec_named` and `rmp_serde::from_slice` at one type.
pub record Codec (T : Type 0) : Type 0 where
  pub to_vec_named : T → Result String Bytes
  pub from_slice : Bytes → Result String T

pub record MessagePack : Type 0 where
  pub metadata : Codec Metadata
  pub request_open : Codec RequestOpen
  pub request_accepted : Codec RequestAccepted
  pub response_open : Codec ResponseOpen
  pub stream_end : Codec StreamEnd
  pub ack : Codec Ack
  pub cancel : Codec Cancel
  pub stream_error : Codec StreamError

-- `blake3::Hasher`.
pub record Blake3 (Hasher : Type 0) : Type 0 where
  pub new_hasher : Hasher
  pub update : Hasher → Bytes → Hasher
  pub finalize : Hasher → Bytes

-- `zstd::stream::write::Encoder` and `Decoder` over a `ChunkSink`. `take` empties the sink; a
-- failing write may have changed the stream, so the stream is answered in any case.
pub record Zstd (Encoder Decoder : Type 0) : Type 0 where
  pub new_encoder : ℤ → Result String Encoder
  pub write_encoder : Encoder → Bytes → Result String (Unit {0}) × Encoder
  pub flush_encoder : Encoder → Result String (Unit {0}) × Encoder
  pub take_encoder : Encoder → Bytes × Encoder
  pub finish_encoder : Encoder → Result String Bytes
  pub new_decoder : Result String Decoder
  pub write_decoder : Decoder → Bytes → Result String (Unit {0}) × Decoder
  pub flush_decoder : Decoder → Result String (Unit {0}) × Decoder
  pub take_decoder : Decoder → Bytes × Decoder
