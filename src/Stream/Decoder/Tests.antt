-- ===== src/Stream/Decoder/Tests.antt =====
-- An uncompressed stream of three bytes, verified.
use veilid_http.Prelude.{ℕ, ◌+◌, ◌≤◌, ◌≡◌, refl, true, false, [], ◌∷◌, length, ok, arith}
use veilid_http.Wire.Reader.{Bytes}
use veilid_http.Stream.Types.{request, same_direction, StreamEnd}
use veilid_http.Stream.Decoder.{StreamDecoder, plain, push, finish, record_output, trailing}
use veilid_http.Stream.Decoder.Integrity.{push-bounded, finish-verified}
use veilid_http.Stream.Sample.{sample_hash, sample_zstd}

abbrev opened : StreamDecoder Bytes Bytes
opened = record {
  direction = request;
  decompression = plain [];
  hasher = 1 ∷ [];
  logical_length = 1;
  max_logical_length = 4;
}

abbrev last : StreamEnd
last = record { direction = request; logical_length = 1; blake3 = 1 ∷ [] }

push-bounded_example : (push sample_hash sample_zstd (2 ∷ 3 ∷ []) false opened).1.logical_length ≤ 4
push-bounded_example = push-bounded sample_hash sample_zstd (2 ∷ 3 ∷ []) false opened (omega arith)

accepted : finish sample_hash sample_zstd opened last ≡ ok []
unfolding finish trailing record_output same_direction
accepted = refl

finish-verified_example :
    (same_direction request request ≡ true)
    × (1 + length {A = ℕ} [] ≡ 1)
    × (1 ≤ 4)
    × (sample_hash.finalize (sample_hash.update (1 ∷ []) []) ≡ last.blake3)
finish-verified_example =
    finish-verified sample_hash sample_zstd opened last [] (omega arith) accepted
