-- ===== src/Core/ReceiveWindow/Duplicates.antt =====
-- What `record` answers for a frame that comes twice.
use veilid_http.Prelude.{
  ℕ, zero, suc, ◌≤◌, ◌<◌, ◌≡◌, ap, true, false, not, length, arith, Bool-cases, inl, inr, ◌==◌, ltb,
}
use veilid_http.Prelude.Words.{u32_max}
use veilid_http.Prelude.SortedMap.{contains_key, contains_key-remove}
use veilid_http.Core.ReceiveWindow.{ReceiveWindow, advance, record_sequence}
use veilid_http.Core.ReceiveWindow.Validity.{
  IsBounded, IsValid, seen, seen-record_sequence, inserted, inserted-IsBounded, advanced,
  advanced-IsBounded,
}

-- The loop only takes elements out.
advance-absent :
    (fuel s : ℕ) (w : ReceiveWindow)
    → IsBounded w
    → contains_key s w.received ≡ false
    → contains_key s (advance fuel w).received ≡ false
unfolding advance
advance-absent zero s w b h = h
advance-absent (suc fuel) s w b h = elim (Bool-cases (contains_key w.next_contiguous w.received)) [
  | inl e ↦ rw e (
      advance-absent fuel s (advanced w) (advanced-IsBounded w b e)
        (ground (arith, contains_key-remove 0 w.next_contiguous s w.received b.ascending)))
  | inr e ↦ rw e h
]

-- The numbers that the loop passes are no longer in the set.
advance-passed :
    (fuel s : ℕ) (w : ReceiveWindow)
    → IsBounded w
    → w.next_contiguous ≤ s
    → s < (advance fuel w).next_contiguous
    → contains_key s (advance fuel w).received ≡ false
unfolding advance
advance-passed zero s w b h k = absurd (omega arith)
advance-passed (suc fuel) s w b h k =
    elim (Bool-cases (contains_key w.next_contiguous w.received)) [
      | inl e ↦ rw e (elim (Bool-cases (s == w.next_contiguous)) [
        | inl q ↦
            advance-absent fuel s (advanced w) (advanced-IsBounded w b e)
              (ground (arith, contains_key-remove 0 w.next_contiguous s w.received b.ascending))
        | inr q ↦
            advance-passed fuel s (advanced w) (advanced-IsBounded w b e)
              (ground (arith, b.next_le)) (rw e at k)
      ])
      | inr e ↦ absurd (ground arith)
    ]

-- On a valid window and for a number below `u32::MAX` that it has not seen, the first delivery is
-- answered `true`. The second is answered `true` again exactly if the first one was contiguous,
-- and `false` if the number waits in the set.
pub record_sequence_twice :
    (w : ReceiveWindow) (s : ℕ)
    → IsValid w
    → s < u32_max
    → seen w s ≡ false
    → ((record_sequence w s).1 ≡ true)
      × ((record_sequence (record_sequence w s).0 s).1
          ≡ ltb s (record_sequence w s).0.next_contiguous)
unfolding record_sequence
record_sequence_twice w s v h new = (
  ground arith,
  elim (Bool-cases (ltb s after.next_contiguous)) [
    | inl e ↦ rw e (
        ap not (
          advance-passed (length (inserted w s v h).received) s (inserted w s v h)
            (inserted-IsBounded w s v h) (ground arith) (ground arith)))
    | inr e ↦ rw e (ground (arith, seen-record_sequence w s v h s))
  ],
)
  where
    after : ReceiveWindow
    after = (record_sequence w s).0
