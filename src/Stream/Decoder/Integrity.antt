-- ===== src/Stream/Decoder/Integrity.antt =====
-- What `StreamDecoder` verifies, and that it accepts what an uncompressed `StreamEncoder` sends.
use veilid_http.Prelude.{
  ◌+◌, ◌≤◌, ◌<◌, ◌≡◌, Bool, true, length, bytes_eq_iff, ok, arith, Result-cases, inl, inr,
}
use veilid_http.Prelude.Words.{u64_max}
use veilid_http.Wire.Reader.{Bytes}
use veilid_http.Stream.Types.{same_direction, StreamEnd}
use veilid_http.Stream.Crates.{Blake3, Zstd}
use veilid_http.Stream.Decoder.{StreamDecoder, push, finish, record_output, trailing, write}

module _ {Hasher Encoder Decoder : Type 0} (b : Blake3 Hasher) (z : Zstd Encoder Decoder) where
  -- From a count within the limit, whatever the decompressor yields, and whether `push` succeeds
  -- or fails, the bytes counted as delivered stay within the limit that the receiver has set.
  pub push-bounded :
      (input : Bytes) (flush : Bool) (s : StreamDecoder Hasher Decoder)
      → s.logical_length ≤ s.max_logical_length
      → (push b z input flush s).1.logical_length ≤ s.max_logical_length
  unfolding push record_output
  push-bounded input flush s h = elim (Result-cases (write b z s.decompression input flush).0) [
    | inr (x, e) ↦ rw (e, push) h
    | inl (output, e) ↦ rw (e, push) (ground arith)
  ]

  -- A stream with a limit below `u64::MAX` that `finish` accepts has the end frame's direction,
  -- exactly its length, its digest, and is within the limit.
  pub finish-verified :
      (s : StreamDecoder Hasher Decoder) (last : StreamEnd) (tail : Bytes)
      → s.max_logical_length < u64_max
      → finish b z s last ≡ ok tail
      → (same_direction last.direction s.direction ≡ true)
        × (s.logical_length + length tail ≡ last.logical_length)
        × (last.logical_length ≤ s.max_logical_length)
        × (b.finalize (b.update s.hasher tail) ≡ last.blake3)
  unfolding finish record_output
  finish-verified s last tail h e = elim (Result-cases (trailing b z s.decompression)) [
    | inr (x, q) ↦ absurd (ground (arith, q))
    | inl (output, q) ↦
        ground (arith, q, bytes_eq_iff (b.finalize (b.update s.hasher output)) last.blake3)
  ]
