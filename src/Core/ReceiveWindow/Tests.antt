-- ===== src/Core/ReceiveWindow/Tests.antt =====
-- Runs of the receive window on concrete frames, and its theorems at concrete inputs.
use veilid_http.Prelude.{◌+◌, ◌≡◌, refl, true, ◌&&◌, some, [], ◌∷◌, ltb, arith}
use veilid_http.Core.ReceiveWindow.{
  default, advance, record_sequence, snapshot, selective_bits, acknowledges,
}
use veilid_http.Core.ReceiveWindow.Validity.{default-IsValid}
use veilid_http.Core.ReceiveWindow.Acks.{record_all, acknowledges-record_all}
use veilid_http.Core.ReceiveWindow.Duplicates.{record_sequence_twice}

-- `ack_window_tracks_gaps`.
gap : (snapshot (record_all default (0 ∷ 2 ∷ []))).cumulative ≡ some 0
unfolding snapshot record_sequence advance
gap = refl

gap_bits : (snapshot (record_all default (0 ∷ 2 ∷ []))).selective ≡ 2
unfolding snapshot record_sequence advance selective_bits
gap_bits = refl

filled : (snapshot (record_all default (0 ∷ 2 ∷ 1 ∷ []))).cumulative ≡ some 2
unfolding snapshot record_sequence advance
filled = refl

acknowledges-record_all_example :
    acknowledges (snapshot (record_all default (0 ∷ 2 ∷ []))) 2
    ≡ true && ltb 2 ((record_all default (0 ∷ 2 ∷ [])).next_contiguous + 64)
acknowledges-record_all_example = acknowledges-record_all (0 ∷ 2 ∷ []) 2 (omega arith) (omega arith)

record_sequence_twice_example :
    ((record_sequence default 0).1 ≡ true)
    × ((record_sequence (record_sequence default 0).0 0).1
        ≡ ltb 0 (record_sequence default 0).0.next_contiguous)
record_sequence_twice_example = record_sequence_twice default 0 default-IsValid (omega arith) refl
