-- ===== src/Core/SendWindow/Tests.antt =====
-- Runs of the send window, and its theorems at concrete inputs.
use veilid_http.Prelude.{
  ℕ, ◌≡◌, ◌⊎◌, refl, true, false, none, some, [], ◌∷◌, if◌then◌else◌, length, arith, ok, err,
}
use veilid_http.Prelude.Words.{u32_max}
use veilid_http.Prelude.SortedMap.{get, mem}
use veilid_http.Core.Error.{send_window_full, sequence_exhausted}
use veilid_http.Core.ReceiveWindow.{AckSnapshot, acknowledges, snapshot, default}
use veilid_http.Core.ReceiveWindow.Acks.{record_all}
use veilid_http.Core.SendWindow.{
  SendWindow, InFlightFrame, enqueue, mark_sent, acknowledge, ready_to_send, due_frames,
  fresh_frame,
}
use veilid_http.Core.SendWindow.Validity.{IsValid, enqueue_cases}
use veilid_http.Core.SendWindow.Acknowledge.{
  acknowledge_lem, acknowledge-keeps_unreceived, acknowledge-IsValid,
}

abbrev frame : ℕ → InFlightFrame
frame s = fresh_frame s (7 ∷ 8 ∷ [])

-- Two frames of two bytes in a window of three.
abbrev two_frames : SendWindow
two_frames = record {
  capacity = 3;
  next_sequence = 2;
  in_flight = (0, frame 0) ∷ (1, frame 1) ∷ [];
  in_flight_bytes = 4;
}

two_frames-IsValid : IsValid two_frames
two_frames-IsValid = record {
  ascending = omega arith;
  below = omega arith;
  next_le = omega arith;
  within = omega arith;
  positive = omega arith;
  accounted = refl;
}

abbrev ack_one : AckSnapshot
ack_one = record { cumulative = none; selective = 2 }

released : (acknowledge two_frames ack_one).0 ≡ 1 ∷ []
unfolding acknowledge acknowledges
released = refl

resent : ready_to_send (mark_sent two_frames 0 10).1 15 10 ≡ frame 1 ∷ []
unfolding ready_to_send due_frames mark_sent
resent = refl

enqueue_cases_example :
    ((◌≡◌ {A = ℕ} 2 3) × (enqueue two_frames (9 ∷ []) ≡ (err (send_window_full 3), two_frames)))
    ⊎ ((◌≡◌ {A = ℕ} 2 u32_max)
        × (enqueue two_frames (9 ∷ []) ≡ (err sequence_exhausted, two_frames)))
    ⊎ ((w' : SendWindow) × (enqueue two_frames (9 ∷ []) ≡ (ok 2, w'))
        × IsValid w'
        × (w'.next_sequence ≡ 3)
        × (length w'.in_flight ≡ 3)
        × (w'.in_flight_bytes ≡ 5)
        × (get 2 w'.in_flight ≡ some (fresh_frame 2 (9 ∷ []))))
enqueue_cases_example = enqueue_cases two_frames (9 ∷ []) two_frames-IsValid (omega arith)

acknowledge_lem_example :
    (mem 1 (acknowledge two_frames ack_one).0 ≡ (if acknowledges ack_one 1 then true else false))
    × (get 1 (acknowledge two_frames ack_one).1.in_flight
        ≡ (if acknowledges ack_one 1 then none else some (frame 1)))
acknowledge_lem_example = acknowledge_lem two_frames ack_one 1 two_frames-IsValid

acknowledge-IsValid_example : IsValid (acknowledge two_frames ack_one).1
acknowledge-IsValid_example = acknowledge-IsValid two_frames ack_one two_frames-IsValid

acknowledge-keeps_unreceived_example :
    get 0 (acknowledge two_frames (snapshot (record_all default (1 ∷ [])))).1.in_flight
    ≡ some (frame 0)
acknowledge-keeps_unreceived_example =
    acknowledge-keeps_unreceived two_frames (1 ∷ []) 0 two_frames-IsValid (omega arith)
      (omega arith) refl
