-- ===== src/Core/ReceiveWindow/Acks.antt =====
-- What a snapshot acknowledges, for one window and after any history of received frames.
use veilid_http.Prelude.{
  ℕ, zero, suc, ◌+◌, ◌-◌, ◌≤◌, ◌<◌, ◌≡◌, refl, ◌∙◌, ap, ◌&&◌, ◌||◌, List, [], ◌∷◌, ltb, All, arith,
  Bool-cases, inl, inr,
}
use veilid_http.Prelude.Bits.{test_bit, test_bit-zero, test_bit-or_pow}
use veilid_http.Prelude.Words.{u32_max, saturating_add, checked_sub}
use veilid_http.Prelude.SortedMap.{contains_key, mem}
use veilid_http.Core.ReceiveWindow.{
  ReceiveWindow, default, record_sequence, snapshot, selective_bits, acknowledges,
}
use veilid_http.Core.ReceiveWindow.Validity.{
  IsValid, seen, default-IsValid, record_sequence-IsValid, seen-record_sequence,
}

-- The bits of the selective map are the membership tests of the loop.
selective_bits_lem :
    (w : ReceiveWindow) (n k : ℕ)
    → test_bit (selective_bits w n) k
      ≡ ltb k n && contains_key (saturating_add u32_max w.next_contiguous k) w.received
unfolding selective_bits
selective_bits_lem w zero k = test_bit-zero k ∙ ground arith
selective_bits_lem w (suc n) k =
    elim (Bool-cases (contains_key (saturating_add u32_max w.next_contiguous n) w.received)) [
      | inl e ↦ rw e (
          test_bit-or_pow n k (selective_bits w n)
          ∙ ground (arith, selective_bits_lem w n k, e, same))
      | inr e ↦ rw e (ground (arith, selective_bits_lem w n k, e, same))
    ]
  where
    same :
        n ≡ k
        → contains_key (saturating_add u32_max w.next_contiguous n) w.received
          ≡ contains_key (saturating_add u32_max w.next_contiguous k) w.received
    same e = ap (λ i. contains_key (saturating_add u32_max w.next_contiguous i) w.received) e

-- The base that `acknowledges` recovers from `cumulative` is the contiguous bound itself.
acknowledges_base :
    (next bits s : ℕ)
    → next ≤ u32_max
    → acknowledges (record { cumulative = checked_sub next 1; selective = bits }) s
      ≡ ltb s next || ltb s (next + 64) && test_bit bits (s - next)
unfolding acknowledges
acknowledges_base next bits s h = ground arith

offset_back : (next s : ℕ) → s ≤ u32_max → next ≤ s → saturating_add u32_max next (s - next) ≡ s
offset_back next s h k = omega arith

-- A snapshot acknowledges exactly the contiguous numbers and those of the next 64 that are held.
pub acknowledges-snapshot :
    (w : ReceiveWindow) (s : ℕ)
    → w.next_contiguous ≤ u32_max
    → s ≤ u32_max
    → acknowledges (snapshot w) s
      ≡ ltb s w.next_contiguous || ltb s (w.next_contiguous + 64) && contains_key s w.received
unfolding acknowledges snapshot
acknowledges-snapshot w s hw hs =
    acknowledges_base w.next_contiguous (selective_bits w 64) s hw
    ∙ ground (
      arith,
      selective_bits_lem w 64 (s - w.next_contiguous),
      λ (k : w.next_contiguous ≤ s).
          ap (λ i. contains_key i w.received) (offset_back w.next_contiguous s hs k),
    )

abbrev pub record_all : ReceiveWindow → List ℕ → ReceiveWindow
record_all w [] = w
record_all w (s ∷ ss) = record_all (record_sequence w s).0 ss

pub record_all-IsValid :
    (w : ReceiveWindow) (ss : List ℕ)
    → IsValid w
    → All (λ s. s < u32_max) ss
    → IsValid (record_all w ss)
record_all-IsValid w [] v h = v
record_all-IsValid w (s ∷ ss) v h =
    record_all-IsValid (record_sequence w s).0 ss (record_sequence-IsValid w s v h.0) h.1

seen-record_all :
    (w : ReceiveWindow) (ss : List ℕ) (t : ℕ)
    → IsValid w
    → All (λ s. s < u32_max) ss
    → seen (record_all w ss) t ≡ mem t ss || seen w t
seen-record_all w [] t v h = refl
seen-record_all w (s ∷ ss) t v h = ground (
  arith,
  seen-record_all (record_sequence w s).0 ss t (record_sequence-IsValid w s v h.0) h.1,
  seen-record_sequence w s v h.0 t,
)

-- For a new window after any frames with numbers below `u32::MAX` were recorded: the snapshot
-- acknowledges a sequence number exactly when its frame was recorded and it lies below
-- `next_contiguous + 64`.
pub acknowledges-record_all :
    (ss : List ℕ) (t : ℕ)
    → All (λ s. s < u32_max) ss
    → t ≤ u32_max
    → acknowledges (snapshot (record_all default ss)) t
      ≡ mem t ss && ltb t ((record_all default ss).next_contiguous + 64)
acknowledges-record_all ss t h ht =
    let w = record_all default ss in
    let v = record_all-IsValid default ss default-IsValid h in
    ground (
      arith,
      acknowledges-snapshot w t v.bounded.next_le ht,
      seen-record_all default ss t default-IsValid h,
    )
