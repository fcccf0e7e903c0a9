-- ===== src/Core/SendWindow/Acknowledge.antt =====
-- What an acknowledgement takes out of the window.
use veilid_http.Prelude.{
  ℕ, ◌≤◌, ◌<◌, ◌≡◌, refl, ◌∙◌, ap, false, none, List, [], ◌∷◌, ◌==◌, if◌then◌else◌, arith,
  Option-cases, inl, inr, All,
}
use veilid_http.Prelude.Words.{u32_max}
use veilid_http.Prelude.SortedMap.{
  get, contains_key, keys, mem, mem-keys, get-none, get-remove, Ascending-remove, Below-remove,
  length-remove_present, contains_key-get, total-remove,
}
use veilid_http.Core.ReceiveWindow.{AckSnapshot, acknowledges, snapshot, default}
use veilid_http.Core.ReceiveWindow.Acks.{record_all, acknowledges-record_all}
use veilid_http.Core.SendWindow.{SendWindow, release_one, release, acknowledge, acknowledged_keys}
use veilid_http.Core.SendWindow.Validity.{IsValid, size}

mem-acknowledged_keys :
    (snap : AckSnapshot) (t : ℕ) (ks : List ℕ)
    → mem t (acknowledged_keys snap ks) ≡ (if acknowledges snap t then mem t ks else false)
mem-acknowledged_keys snap t [] = ground arith
mem-acknowledged_keys snap t (k ∷ ks) = ground (arith, mem-acknowledged_keys snap t ks, same)
  where
    same : (k ≡ t) → acknowledges snap k ≡ acknowledges snap t
    same e = ap (acknowledges snap) e

release_one-IsValid : (w : SendWindow) (s : ℕ) → IsValid w → IsValid (release_one w s)
unfolding release_one
release_one-IsValid w s v = elim (Option-cases (get s w.in_flight)) [
  | inl e ↦ rw (e, release_one) v
  | inr (frame, e) ↦
      rw (e, release_one)
        (record {
          ascending = Ascending-remove 0 s w.in_flight v.ascending;
          below = Below-remove w.next_sequence s w.in_flight v.below;
          next_le = v.next_le;
          within = omega (
            arith,
            length-remove_present s w.in_flight (contains_key-get s w.in_flight frame e),
            v.within,
          );
          positive = v.positive;
          accounted = omega (arith, total-remove size s frame w.in_flight e, v.accounted);
        })
]

get-release_one :
    (w : SendWindow) (s t : ℕ)
    → IsValid w
    → get t (release_one w s).in_flight ≡ (if s == t then none else get t w.in_flight)
unfolding release_one
get-release_one w s t v = elim (Option-cases (get s w.in_flight)) [
  | inl e ↦ rw (e, release_one) (ground (arith, same, e))
  | inr (frame, e) ↦ rw (e, release_one) (get-remove 0 s t w.in_flight v.ascending)
]
  where
    same : (s ≡ t) → get s w.in_flight ≡ get t w.in_flight
    same e = ap (λ k. get k w.in_flight) e

release-IsValid : (w : SendWindow) (ss : List ℕ) → IsValid w → IsValid (release w ss)
unfolding release
release-IsValid w [] v = v
release-IsValid w (s ∷ ss) v = release-IsValid (release_one w s) ss (release_one-IsValid w s v)

get-release :
    (w : SendWindow) (ss : List ℕ) (t : ℕ)
    → IsValid w
    → get t (release w ss).in_flight ≡ (if mem t ss then none else get t w.in_flight)
unfolding release
get-release w [] t v = refl
get-release w (s ∷ ss) t v =
    ground (
      arith,
      get-release (release_one w s) ss t (release_one-IsValid w s v),
      get-release_one w s t v,
    )

-- An acknowledgement, whatever its snapshot, keeps the invariant of a send window, byte count
-- included.
pub acknowledge-IsValid :
    (w : SendWindow) (snap : AckSnapshot) → IsValid w → IsValid (acknowledge w snap).1
unfolding acknowledge
acknowledge-IsValid w snap v = release-IsValid w (acknowledged_keys snap (keys w.in_flight)) v

-- On a valid window, `acknowledge` lists exactly the retained numbers that the snapshot
-- acknowledges, and releases just these frames.
pub acknowledge_lem :
    (w : SendWindow) (snap : AckSnapshot) (t : ℕ)
    → IsValid w
    → (mem t (acknowledge w snap).0
        ≡ (if acknowledges snap t then contains_key t w.in_flight else false))
      × (get t (acknowledge w snap).1.in_flight
          ≡ (if acknowledges snap t then none else get t w.in_flight))
unfolding acknowledge
acknowledge_lem w snap t v = (listed, get-release w ks t v ∙ rw listed kept)
  where
    ks : List ℕ
    ks = acknowledged_keys snap (keys w.in_flight)

    listed : mem t ks ≡ (if acknowledges snap t then contains_key t w.in_flight else false)
    listed = mem-acknowledged_keys snap t (keys w.in_flight) ∙ rw (mem-keys t w.in_flight)

    kept :
        (if (if acknowledges snap t then contains_key t w.in_flight else false)
          then none
          else get t w.in_flight)
        ≡ (if acknowledges snap t then none else get t w.in_flight)
    kept = ground (arith, get-none t w.in_flight)

-- End to end: whatever frames with numbers below `u32::MAX` a receiver has recorded, its
-- acknowledgement never makes a valid send window release a frame that the receiver has not
-- recorded.
pub acknowledge-keeps_unreceived :
    (w : SendWindow) (ss : List ℕ) (t : ℕ)
    → IsValid w
    → All (λ s. s < u32_max) ss
    → t ≤ u32_max
    → mem t ss ≡ false
    → get t (acknowledge w (snapshot (record_all default ss))).1.in_flight ≡ get t w.in_flight
acknowledge-keeps_unreceived w ss t v h le new = ground (
  arith,
  (acknowledge_lem w (snapshot (record_all default ss)) t v).1,
  acknowledges-record_all ss t h le,
)
