-- ===== src/Stream/Decoder.antt =====
-- `DecoderState`, `StreamDecoder` and `record_output` of crates/veilid-http-stream/src/lib.rs.
pub mod Integrity
mod Tests
use Prim.Native.String.{String}
use veilid_http.Prelude.{
  ℕ, Bool, true, false, not, [], ◌++◌, ltb, ◌==◌, if◌then◌else◌, length, bytes_eq, Result, ok, err,
  map_err, reject_if, ◌>>=◌, ◌>>◌,
}
use veilid_http.Prelude.Words.{u64_max, saturating_add}
use veilid_http.Prelude.Stateful.{Action}
use veilid_http.Wire.Reader.{Bytes}
use veilid_http.Stream.Types.{
  StreamDirection, same_direction, CompressionMode, zstd, uncompressed, StreamEnd,
}
use veilid_http.Stream.Error.{
  StreamProtocolError, compression, logical_limit, length_mismatch, digest_mismatch,
  direction_mismatch,
}
use veilid_http.Stream.Crates.{Blake3, Zstd}

pub data DecoderState (Decoder : Type 0) : Type 0 where
  plain : (sink : Bytes) → DecoderState Decoder
  decompressing : (decoder : Decoder) → DecoderState Decoder

pub record StreamDecoder (Hasher Decoder : Type 0) : Type 0 where
  pub direction : StreamDirection
  pub decompression : DecoderState Decoder
  pub hasher : Hasher
  pub logical_length : ℕ
  pub max_logical_length : ℕ

module _ {Hasher Encoder Decoder : Type 0} (b : Blake3 Hasher) (z : Zstd Encoder Decoder) where
  initial_state : CompressionMode → Result StreamProtocolError (DecoderState Decoder)
  initial_state uncompressed = ok (plain [])
  initial_state zstd = map_err compression z.new_decoder >>= λ d. ok (decompressing d)

  unfoldable pub new :
      StreamDirection
      → CompressionMode
      → ℕ
      → Result StreamProtocolError (StreamDecoder Hasher Decoder)
  unfolding initial_state
  new direction mode max_logical_length = initial_state mode >>= λ state. ok (record {
    direction = direction;
    decompression = state;
    hasher = b.new_hasher;
    logical_length = 0;
    max_logical_length = max_logical_length;
  })

  -- `record_output` on the stream's hasher and length; a refused output changes neither.
  pub record_output : Bytes → Action StreamProtocolError (StreamDecoder Hasher Decoder) (Unit {0})
  record_output output s =
      if ltb u64_max (length output)
      then (err (logical_limit u64_max s.max_logical_length), s)
      else let actual = saturating_add u64_max s.logical_length (length output) in
        if ltb s.max_logical_length actual
        then (err (logical_limit actual s.max_logical_length), s)
        else (ok tt, record s { logical_length = actual; hasher = b.update s.hasher output })

  taken :
      Result String (Unit {0}) × Decoder → Result StreamProtocolError Bytes × DecoderState Decoder
  taken (r, d) = elim r [
    | err x ↦ (err (compression x), decompressing d)
    | ok u ↦ let (output, d') = z.take_decoder d in (ok output, decompressing d')
  ]

  -- `match &mut self.decompression` in `push`.
  write :
      DecoderState Decoder → Bytes → Bool → Result StreamProtocolError Bytes × DecoderState Decoder
  unfolding taken
  write (plain sink) input flush = (ok (sink ++ input), plain [])
  write (decompressing d) input flush =
      let (r, d') = z.write_decoder d input in
      elim r [
        | err x ↦ (err (compression x), decompressing d')
        | ok u ↦ if flush then taken (z.flush_decoder d') else taken (ok tt, d')
      ]

  unfoldable pub push :
      Bytes → Bool → Action StreamProtocolError (StreamDecoder Hasher Decoder) Bytes
  unfolding write record_output
  push input flush s =
      let (r, state) = write s.decompression input flush in
      let s' = record s { decompression = state } in
      elim r [
        | err e ↦ (err e, s')
        | ok output ↦ let (r', s'') = record_output output s' in (r' >> ok output, s'')
      ]

  trailing : DecoderState Decoder → Result StreamProtocolError Bytes
  trailing (plain sink) = ok sink
  trailing (decompressing d) =
      let (r, d') = z.flush_decoder d in map_err compression r >> ok (z.take_decoder d').0

  -- The decoder is consumed, so `finish` answers no state.
  unfoldable pub finish :
      StreamDecoder Hasher Decoder → StreamEnd → Result StreamProtocolError Bytes
  unfolding trailing record_output
  finish s expected = do
    reject_if (not (same_direction expected.direction s.direction)) direction_mismatch
    output ← trailing s.decompression
    let (r, s') = record_output output s
    r
    reject_if (not (s'.logical_length == expected.logical_length)) length_mismatch
    reject_if (not (bytes_eq (b.finalize s'.hasher) expected.blake3)) digest_mismatch
    ok output
