-- ===== src/Stream/Transfer/Tests.antt =====
-- Three bytes in two chunks.
use veilid_http.Prelude.{◌≡◌, refl, [], ◌∷◌, ok, arith}
use mathlib.Core.List.{append-nil}
use veilid_http.Prelude.Int.{pos}
use veilid_http.Stream.Types.{request}
use veilid_http.Stream.Encoder.{new as new_encoder}
use veilid_http.Stream.Decoder.{new as new_decoder}
use veilid_http.Stream.Transfer.{transfer, sender, receiver, transfer_lem}
use veilid_http.Stream.Sample.{sample_hash, sample_zstd}

transfer_lem_example :
    transfer sample_hash sample_zstd
      ((1 ∷ 2 ∷ []) ∷ (3 ∷ []) ∷ [])
      (sender sample_hash sample_zstd request [] 0)
      (receiver sample_hash sample_zstd request [] 0 8)
    ≡ ok (1 ∷ 2 ∷ 3 ∷ [])
unfolding new_encoder new_decoder
transfer_lem_example =
    transfer_lem sample_hash sample_zstd ((1 ∷ 2 ∷ []) ∷ (3 ∷ []) ∷ []) request (pos 3) 8
      (sender sample_hash sample_zstd request [] 0)
      (receiver sample_hash sample_zstd request [] 0 8) (λ h. append-nil h) (omega arith)
      (omega arith) refl refl
