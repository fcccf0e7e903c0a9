-- ===== src/Stream/Encoder.antt =====
-- `ChunkSink`, `EncoderState` and `StreamEncoder` of crates/veilid-http-stream/src/lib.rs.
use Prim.Native.String.{String}
use veilid_http.Prelude.{
  ℕ, ◌-◌, Bool, none, some, [], ◌++◌, ltb, if◌then◌else◌, length, Result, ok, err, map_err,
  ◌>>=◌ as bind,
}
use veilid_http.Prelude.Int.{ℤ}
use veilid_http.Prelude.Words.{u64_max, checked_add}
use veilid_http.Prelude.Stateful.{Action}
use veilid_http.Wire.Reader.{Bytes}
use veilid_http.Stream.Types.{StreamDirection, CompressionMode, zstd, uncompressed, StreamEnd}
use veilid_http.Stream.Error.{StreamProtocolError, compression, logical_limit}
use veilid_http.Stream.Crates.{Blake3, Zstd}

pub data EncoderState (Encoder : Type 0) : Type 0 where
  plain : (sink : Bytes) → EncoderState Encoder
  compressing : (encoder : Encoder) → EncoderState Encoder

pub record StreamEncoder (Hasher Encoder : Type 0) : Type 0 where
  pub direction : StreamDirection
  pub compression : EncoderState Encoder
  pub hasher : Hasher
  pub logical_length : ℕ

module _ {Hasher Encoder Decoder : Type 0} (b : Blake3 Hasher) (z : Zstd Encoder Decoder) where
  initial_state : CompressionMode → ℤ → Result StreamProtocolError (EncoderState Encoder)
  initial_state uncompressed zstd_level = ok (plain [])
  initial_state zstd zstd_level =
      bind (map_err compression (z.new_encoder zstd_level)) (λ e. ok (compressing e))

  unfoldable pub new :
      StreamDirection
      → CompressionMode
      → ℤ
      → Result StreamProtocolError (StreamEncoder Hasher Encoder)
  unfolding initial_state
  new direction mode zstd_level = bind (initial_state mode zstd_level) (λ state. ok (record {
    direction = direction;
    compression = state;
    hasher = b.new_hasher;
    logical_length = 0;
  }))

  -- `encoder.get_mut().take()`, after a write or a flush that succeeded.
  taken :
      Result String (Unit {0}) × Encoder → Result StreamProtocolError Bytes × EncoderState Encoder
  taken (r, e) = elim r [
    | err x ↦ (err (compression x), compressing e)
    | ok u ↦ let (output, e') = z.take_encoder e in (ok output, compressing e')
  ]

  -- `match &mut self.compression` in `push`.
  write :
      EncoderState Encoder → Bytes → Bool → Result StreamProtocolError Bytes × EncoderState Encoder
  unfolding taken
  write (plain sink) input flush = (ok (sink ++ input), plain [])
  write (compressing e) input flush =
      let (r, e') = z.write_encoder e input in
      elim r [
        | err x ↦ (err (compression x), compressing e')
        | ok u ↦ if flush then taken (z.flush_encoder e') else taken (ok tt, e')
      ]

  -- `StreamEncoder::push`. A length that does not fit u64 changes nothing.
  unfoldable pub push :
      Bytes → Bool → Action StreamProtocolError (StreamEncoder Hasher Encoder) Bytes
  unfolding write
  push input flush s =
      if ltb u64_max (length input)
      then (err (logical_limit u64_max (u64_max - 1)), s)
      else elim (checked_add u64_max s.logical_length (length input)) [
        | none ↦ (err (logical_limit u64_max (u64_max - 1)), s)
        | some total ↦
            let (r, state) = write s.compression input flush in
            (
              r,
              record s {
                logical_length = total;
                hasher = b.update s.hasher input;
                compression = state;
              },
            )
      ]

  trailing : EncoderState Encoder → Result StreamProtocolError Bytes
  trailing (plain sink) = ok sink
  trailing (compressing e) = map_err compression (z.finish_encoder e)

  unfoldable pub finish :
      StreamEncoder Hasher Encoder → Result StreamProtocolError (Bytes × StreamEnd)
  unfolding trailing
  finish s = bind (trailing s.compression) (λ bytes. ok (
    bytes,
    record {
      direction = s.direction;
      logical_length = s.logical_length;
      blake3 = b.finalize s.hasher;
    },
  ))
