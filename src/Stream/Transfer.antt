-- ===== src/Stream/Transfer.antt =====
-- An uncompressed stream from `StreamEncoder` to `StreamDecoder`, as the engine drives the two.
mod Tests
use veilid_http.Prelude.{
  ℕ, ◌+◌, ◌≤◌, ◌≡◌, refl, true, false, List, [], ◌∷◌, ◌++◌, ltb, leb, ◌==◌, length, length-append,
  concat, min, bytes_eq, bytes_eq_refl, Result, ok, err, ◌>>=◌ as bind, arith,
}
use veilid_http.Prelude.{ok_unique}
use veilid_http.Prelude.Int.{ℤ}
use veilid_http.Prelude.Words.{u64_max}
use veilid_http.Wire.Reader.{Bytes}
use veilid_http.Stream.Types.{StreamDirection, uncompressed, request, response, same_direction}
use veilid_http.Stream.Error.{StreamProtocolError}
use veilid_http.Stream.Crates.{Blake3, Zstd}
use veilid_http.Stream.Encoder.{StreamEncoder, push as encode, finish as close, new as new_encoder}
use veilid_http.Stream.Encoder
use veilid_http.Stream.Decoder.{StreamDecoder, push as decode, finish as verify, new as new_decoder}
use veilid_http.Stream.Decoder

module _ {Hasher Encoder Decoder : Type 0} (b : Blake3 Hasher) (z : Zstd Encoder Decoder) where
  -- Each chunk is pushed into the encoder and what comes out into the decoder; in the end the
  -- encoder's end frame is verified. The answer is all that the decoder has delivered.
  pub transfer :
      List Bytes
      → StreamEncoder Hasher Encoder
      → StreamDecoder Hasher Decoder
      → Result StreamProtocolError Bytes
  transfer [] s d = bind (close b z s) (λ closed. verify b z d closed.1)
  transfer (c ∷ cs) s d =
      let (r, s') = encode b z c false s in
      bind r (λ sent.
        let (r', d') = decode b z sent false d in
        bind r' (λ got. bind (transfer cs s' d') (λ rest. ok (got ++ rest))))

  abbrev sender : StreamDirection → Hasher → ℕ → StreamEncoder Hasher Encoder
  sender direction h n = record {
    direction = direction;
    compression = package.veilid_http.Stream.Encoder.plain [];
    hasher = h;
    logical_length = n;
  }

  abbrev receiver : StreamDirection → Hasher → ℕ → ℕ → StreamDecoder Hasher Decoder
  receiver direction h n limit = record {
    direction = direction;
    decompression = package.veilid_http.Stream.Decoder.plain [];
    hasher = h;
    logical_length = n;
    max_logical_length = limit;
  }

  same : (direction : StreamDirection) → same_direction direction direction ≡ true
  unfolding same_direction
  same request = refl
  same response = refl

  -- `update` with no bytes leaves the digest as it is.
  abbrev pub IgnoresEmpty : Type 0
  IgnoresEmpty = (h : Hasher) → b.finalize (b.update h []) ≡ b.finalize h

  transfer-from :
      (cs : List Bytes) (direction : StreamDirection) (h : Hasher) (n limit : ℕ)
      → IgnoresEmpty
      → n + length (concat cs) ≤ limit
      → limit ≤ u64_max
      → transfer cs (sender direction h n) (receiver direction h n limit) ≡ ok (concat cs)
  unfolding transfer encode close decode verify
  transfer-from [] direction h n limit law fits top =
      let e1 : ltb limit (min (n + 0) u64_max) ≡ false = ground arith in
      let e2 : (min (n + 0) u64_max == n) ≡ true = ground arith in
      rw (e1, same direction, e2, law h, bytes_eq_refl (b.finalize h)) refl
  transfer-from (c ∷ cs) direction h n limit law fits top =
      let total : n + (length c + length (concat cs)) ≤ limit =
        omega (arith, length-append c (concat cs)) in
      let e1 : ltb u64_max (length c) ≡ false = ground arith in
      let e2 : leb (n + length c) u64_max ≡ true = ground arith in
      let e3 : min (n + length c) u64_max ≡ n + length c = omega arith in
      let e4 : ltb limit (n + length c) ≡ false = ground arith in
      rw
        (
          e1,
          e2,
          e1,
          e3,
          e4,
          transfer-from cs direction (b.update h c) (n + length c) limit law (omega arith) top,
        )
        refl

  -- Where hashing no bytes changes no digest: what an uncompressed encoder makes of any chunks whose
  -- total length is within the receiver's limit, a decoder of the same direction delivers whole
  -- and in order, and it accepts the encoder's end frame.
  pub transfer_lem :
      (cs : List Bytes) (direction : StreamDirection) (level : ℤ) (limit : ℕ)
      (s : StreamEncoder Hasher Encoder) (d : StreamDecoder Hasher Decoder)
      → IgnoresEmpty
      → length (concat cs) ≤ limit
      → limit ≤ u64_max
      → new_encoder b z direction uncompressed level ≡ ok s
      → new_decoder b z direction uncompressed limit ≡ ok d
      → transfer cs s d ≡ ok (concat cs)
  unfolding new_encoder new_decoder
  transfer_lem cs direction level limit s d law fits top opened listening =
      rw (ok_unique opened refl, ok_unique listening refl)
        (transfer-from cs direction b.new_hasher 0 limit law (omega arith) top)
