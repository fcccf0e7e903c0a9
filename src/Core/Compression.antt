-- ===== src/Core/Compression.antt =====
-- `compress`, `decompress_bounded` and `stream_digest` of crates/veilid-http-core/src/lib.rs.
-- The zstd and blake3 crates are parameters; an I/O error is its text.
mod Tests
use Prim.Native.String.{String}
use veilid_http.Prelude.{
  ℕ, zero, suc, Bool-cases, inl, inr, ◌+◌, ◌≤◌, ◌<◌, ◌≡◌, refl, ap, ◌∙◌, min, List, [], ◌∷◌, length,
  take, length-take, ltb, leb, if◌then◌else◌, Result, ok, err, ◌>>=◌, ◌>>◌, map_err, reject_if,
  arith, Bool, true, false,
}
use veilid_http.Prelude.Int.{ℤ}
use veilid_http.Prelude.Words.{usize_max, saturating_add}
use veilid_http.Core.Error.{CoreError, compression, decompressed_limit}

abbrev pub Bytes : Type 0
Bytes = List ℕ

-- `zstd::stream::encode_all`.
module _ (encode_all : Bytes → ℤ → Result String Bytes) where
  unfoldable pub compress : Bytes → ℤ → Result CoreError Bytes
  compress bytes level = map_err compression (encode_all bytes level)

-- `zstd::stream::read::Decoder::new`, and `decoder.take(n)` read to its end.
module _ {Decoder : Type 0} (new_decoder : Bytes → Result String Decoder)
    (read_limited : Decoder → ℕ → Result String Bytes) where
  unfoldable pub decompress_bounded : Bytes → ℕ → Result CoreError Bytes
  decompress_bounded bytes max_output = do
    decoder ← map_err compression (new_decoder bytes)
    output ← map_err compression (read_limited decoder (saturating_add usize_max max_output 1))
    reject_if (ltb max_output (length output)) (decompressed_limit (length output) max_output)
    ok output

-- `blake3::hash`.
module _ (hash : Bytes → Bytes) where
  unfoldable pub stream_digest : Bytes → Bytes
  stream_digest bytes = hash bytes

take_all : (n : ℕ) (xs : Bytes) → length xs ≤ n → take n xs ≡ xs
take_all zero [] h = refl
take_all (suc n) [] h = refl
take_all zero (x ∷ xs) h = absurd (omega arith)
take_all (suc n) (x ∷ xs) h = ap (◌∷◌ x) (take_all n xs (omega arith))

map_err-ok : (r : Result String Bytes) (y : Bytes) → map_err compression r ≡ ok y → r ≡ ok y
map_err-ok (ok x) y e = cc
map_err-ok (err x) y e = cc

-- What a reader of the decompressed bytes is documented to do: all of them, up to the limit.
abbrev pub Restores :
    {Decoder : Type 0}
    → (Bytes → ℤ → Result String Bytes)
    → (Bytes → Result String Decoder)
    → (Decoder → ℕ → Result String Bytes)
    → Type 0
Restores {Decoder} encode_all new_decoder read_limited =
    (original compressed : Bytes) (level : ℤ)
    → encode_all original level ≡ ok compressed
    → (decoder : Decoder) × (new_decoder compressed ≡ ok decoder)
      × ((n : ℕ) → read_limited decoder n ≡ ok (take n original))

module _ (encode_all : Bytes → ℤ → Result String Bytes) {Decoder : Type 0}
    (new_decoder : Bytes → Result String Decoder)
    (read_limited : Decoder → ℕ → Result String Bytes) where
  -- Below the largest limit, one byte more than allowed is asked for.
  pub decompress_bounded-below :
      (original compressed : Bytes) (level : ℤ) (max_output : ℕ)
      → Restores encode_all new_decoder read_limited
      → max_output < usize_max
      → compress encode_all original level ≡ ok compressed
      → decompress_bounded new_decoder read_limited compressed max_output ≡ (
          if leb (length original) max_output
          then ok original
          else err (decompressed_limit (max_output + 1) max_output))
  unfolding decompress_bounded compress
  decompress_bounded-below original compressed level max_output restores small e =
      let (decoder, opened, reads) =
        restores original compressed level (map_err-ok (encode_all original level) compressed e) in
      rw (opened, reads (saturating_add usize_max max_output 1), one_more)
        (elim (Bool-cases (leb (length original) max_output)) [
          | inl q ↦ rw (q, take_all (max_output + 1) original (ground arith)) (ground arith)
          | inr q ↦ rw q (ground (arith, length-take (max_output + 1) original))
        ])
    where
      one_more : saturating_add usize_max max_output 1 ≡ max_output + 1
      one_more = omega arith

  -- Where the decoder restores what the encoder wrote, and the original's length and the limit fit
  -- usize: a compressed buffer is decompressed to the original exactly if that has at most
  -- `max_output` bytes; a longer one is refused when one byte more than allowed has been read. The
  -- limit may be `usize::MAX`, where the sum saturates.
  pub decompress_bounded-compress :
      (original compressed : Bytes) (level : ℤ) (max_output : ℕ)
      → Restores encode_all new_decoder read_limited
      → max_output ≤ usize_max
      → length original ≤ usize_max
      → compress encode_all original level ≡ ok compressed
      → decompress_bounded new_decoder read_limited compressed max_output ≡ (
          if leb (length original) max_output
          then ok original
          else err (decompressed_limit (max_output + 1) max_output))
  unfolding decompress_bounded compress
  decompress_bounded-compress original compressed level max_output restores fits held e =
      elim (Bool-cases (ltb max_output usize_max)) [
        | inl below ↦
            decompress_bounded-below original compressed level max_output restores (ground arith) e
        | inr top ↦
            let (decoder, opened, reads) =
              restores original compressed level
                (map_err-ok (encode_all original level) compressed e) in
            let whole : leb (length original) max_output ≡ true = ground arith in
            let within : length original ≤ saturating_add usize_max max_output 1 = ground arith in
            rw
              (
                opened,
                reads (saturating_add usize_max max_output 1),
                take_all (saturating_add usize_max max_output 1) original within,
                whole,
              )
              (ground arith)
      ]
