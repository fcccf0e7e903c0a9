-- ===== src/Core/SendWindow/Validity.antt =====
-- The invariant of a send window: at most `capacity` frames, exactly accounted.
use veilid_http.Prelude.{
  ℕ, zero, suc, ◌+◌, ◌≤◌, ◌<◌, ◌≡◌, ◌⊎◌, refl, ◌∙◌, false, some, List, [], ◌∷◌, ltb, length, arith,
  leb, Bool-cases, inl, inr, ok, err,
}
use veilid_http.Prelude.Words.{u32_max, usize_max, saturating_add}
use veilid_http.Prelude.SortedMap.{
  Map, get, contains_key, insert, total, Ascending, Below, Ascending-insert, Below-insert,
  length-insert_absent, get-insert, total-insert_absent,
}
use veilid_http.Core.Error.{invalid_window_capacity, send_window_full, sequence_exhausted}
use veilid_http.Core.SendWindow.{SendWindow, InFlightFrame, new, enqueue, fresh_frame}

abbrev pub size : InFlightFrame → ℕ
size frame = length frame.bytes

pub record IsValid (w : SendWindow) : Type 0 where
  pub ascending : Ascending 0 w.in_flight
  pub below : Below w.next_sequence w.in_flight
  pub next_le : w.next_sequence ≤ u32_max
  pub within : length w.in_flight ≤ w.capacity
  pub positive : 0 < w.capacity
  pub accounted : w.in_flight_bytes ≡ total size w.in_flight

abbrev opened : ℕ → SendWindow
opened capacity = record {
  capacity = capacity;
  next_sequence = 0;
  in_flight = [];
  in_flight_bytes = 0;
}

-- `new` refuses exactly the capacity 0, and otherwise answers a valid empty window of that
-- capacity.
pub new-IsValid :
    (capacity : ℕ)
    → ((capacity ≡ 0) × (new capacity ≡ err invalid_window_capacity))
      ⊎ ((w : SendWindow) × (new capacity ≡ ok w)
          × IsValid w
          × (w.in_flight ≡ [])
          × (w.capacity ≡ capacity))
unfolding new
new-IsValid zero = inl (refl, refl)
new-IsValid (suc n) = inr (
  opened (suc n),
  ground arith,
  record {
    ascending = tt;
    below = tt;
    next_le = omega arith;
    within = omega arith;
    positive = omega arith;
    accounted = refl;
  },
  refl,
  refl,
)

Below-absent : (n : ℕ) (m : Map InFlightFrame) → Below n m → contains_key n m ≡ false
Below-absent n [] b = refl
Below-absent n ((j, v) ∷ m) b = ground (arith, Below-absent n m b.1)

Below-weaken : (n n' : ℕ) (m : Map InFlightFrame) → n ≤ n' → Below n m → Below n' m
Below-weaken n n' [] h b = tt
Below-weaken n n' ((j, v) ∷ m) h b = (omega arith, Below-weaken n n' m h b.1)

abbrev enqueued : SendWindow → List ℕ → SendWindow
enqueued w bytes = record w {
  next_sequence = w.next_sequence + 1;
  in_flight_bytes = saturating_add usize_max w.in_flight_bytes (length bytes);
  in_flight = insert w.next_sequence (fresh_frame w.next_sequence bytes) w.in_flight;
}

module _ (w : SendWindow) (bytes : List ℕ) (v : IsValid w)
    (fits : w.in_flight_bytes + length bytes ≤ usize_max) where
  absent : contains_key w.next_sequence w.in_flight ≡ false
  absent = Below-absent w.next_sequence w.in_flight v.below

  enqueued-IsValid :
      length w.in_flight < w.capacity → w.next_sequence < u32_max → IsValid (enqueued w bytes)
  enqueued-IsValid room left = record {
    ascending =
        Ascending-insert 0 w.next_sequence (fresh_frame w.next_sequence bytes) w.in_flight
          (omega arith) v.ascending;
    below =
        Below-insert (w.next_sequence + 1) w.next_sequence (fresh_frame w.next_sequence bytes)
          w.in_flight (omega arith)
          (Below-weaken w.next_sequence (w.next_sequence + 1) w.in_flight (omega arith) v.below);
    next_le = omega arith;
    within = omega (
      arith,
      length-insert_absent w.next_sequence (fresh_frame w.next_sequence bytes) w.in_flight absent,
    );
    positive = v.positive;
    accounted = omega (
      arith,
      total-insert_absent size w.next_sequence (fresh_frame w.next_sequence bytes) w.in_flight
          absent,
      v.accounted,
    );
  }

  -- Every branch of `enqueue` on a valid window whose bytes fit usize: a full window and an
  -- exhausted sequence space are refused and change nothing; otherwise the frame is retained
  -- under the next sequence number, counted, and the window stays valid.
  pub enqueue_cases :
      ((length w.in_flight ≡ w.capacity)
        × (enqueue w bytes ≡ (err (send_window_full w.capacity), w)))
      ⊎ ((w.next_sequence ≡ u32_max) × (enqueue w bytes ≡ (err sequence_exhausted, w)))
      ⊎ ((w' : SendWindow) × (enqueue w bytes ≡ (ok w.next_sequence, w'))
          × IsValid w'
          × (w'.next_sequence ≡ w.next_sequence + 1)
          × (length w'.in_flight ≡ length w.in_flight + 1)
          × (w'.in_flight_bytes ≡ w.in_flight_bytes + length bytes)
          × (get w.next_sequence w'.in_flight ≡ some (fresh_frame w.next_sequence bytes)))
  unfolding enqueue
  enqueue_cases = elim (Bool-cases (ltb (length w.in_flight) w.capacity)) [
    | inr e ↦ inl (ground (arith, v.within), rw e)
    | inl room ↦ elim (Bool-cases (leb (w.next_sequence + 1) u32_max)) [
      | inr e ↦ inr (inl (ground (arith, v.next_le), rw (room, e)))
      | inl left ↦ inr (
          inr (
            enqueued w bytes,
            rw (room, left),
            enqueued-IsValid (ground arith) (ground arith),
            refl,
            length-insert_absent w.next_sequence (fresh_frame w.next_sequence bytes) w.in_flight
                absent,
            omega arith,
            get-insert w.next_sequence w.next_sequence (fresh_frame w.next_sequence bytes)
                  w.in_flight
                ∙ ground arith,
          ))
    ]
  ]
