-- ===== src/Core/SendWindow.antt =====
-- `InFlightFrame` and `SendWindow` of crates/veilid-http-core/src/lib.rs.
pub mod Validity
pub mod Acknowledge
mod Tests
use veilid_http.Prelude.{
  ℕ, zero, suc, ◌+◌, ◌-◌, Bool, true, false, Option, none, some, List, [], ◌∷◌, ltb, leb, ◌==◌,
  if◌then◌else◌, length, Result, ok, err,
}
use veilid_http.Prelude.Words.{u32_max, usize_max, saturating_add, checked_add}
use veilid_http.Prelude.SortedMap.{Map, get, insert, remove, keys, values}
use veilid_http.Core.Error.{
  CoreError, invalid_window_capacity, send_window_full, sequence_exhausted,
}
use veilid_http.Core.ReceiveWindow.{AckSnapshot, acknowledges}

pub record InFlightFrame : Type 0 where
  pub sequence : ℕ
  pub bytes : List ℕ
  pub last_sent_ms : Option ℕ
  pub attempts : ℕ

pub record SendWindow : Type 0 where
  pub capacity : ℕ
  pub next_sequence : ℕ
  pub in_flight : Map InFlightFrame
  pub in_flight_bytes : ℕ

pub new : ℕ → Result CoreError SendWindow
new capacity =
    if capacity == 0
    then err invalid_window_capacity
    else ok (record { capacity = capacity; next_sequence = 0; in_flight = []; in_flight_bytes = 0 })

abbrev pub has_capacity : SendWindow → Bool
has_capacity w = ltb (length w.in_flight) w.capacity

abbrev fresh_frame : ℕ → List ℕ → InFlightFrame
fresh_frame sequence bytes = record {
  sequence = sequence;
  bytes = bytes;
  last_sent_ms = none;
  attempts = 0;
}

pub enqueue : SendWindow → List ℕ → Result CoreError ℕ × SendWindow
enqueue w bytes =
    if has_capacity w
    then (elim (checked_add u32_max w.next_sequence 1) [
      | none ↦ (err sequence_exhausted, w)
      | some next ↦ (
        ok w.next_sequence,
        record w {
          next_sequence = next;
          in_flight_bytes = saturating_add usize_max w.in_flight_bytes (length bytes);
          in_flight = insert w.next_sequence (fresh_frame w.next_sequence bytes) w.in_flight;
        },
      )
    ])
    else (err (send_window_full w.capacity), w)

pub mark_sent : SendWindow → ℕ → ℕ → Bool × SendWindow
mark_sent w sequence now_ms = elim (get sequence w.in_flight) [
  | none ↦ (false, w)
  | some frame ↦ (
    true,
    record w {
      in_flight =
          insert sequence
            (record frame {
              last_sent_ms = some now_ms;
              attempts = saturating_add u32_max frame.attempts 1;
            })
            w.in_flight;
    },
  )
]

abbrev pub acknowledged_keys : AckSnapshot → List ℕ → List ℕ
acknowledged_keys snap [] = []
acknowledged_keys snap (k ∷ ks) =
    if acknowledges snap k then k ∷ acknowledged_keys snap ks else acknowledged_keys snap ks

-- The body of the `for` loop of `acknowledge`, and the loop.
release_one : SendWindow → ℕ → SendWindow
release_one w sequence = elim (get sequence w.in_flight) [
  | none ↦ w
  | some frame ↦ record w {
    in_flight = remove sequence w.in_flight;
    in_flight_bytes = w.in_flight_bytes - length frame.bytes;
  }
]

release : SendWindow → List ℕ → SendWindow
release w [] = w
release w (s ∷ ss) = release (release_one w s) ss

pub acknowledge : SendWindow → AckSnapshot → List ℕ × SendWindow
acknowledge w snap =
    let acknowledged = acknowledged_keys snap (keys w.in_flight) in
    (acknowledged, release w acknowledged)

-- `last_sent_ms.is_none_or(|sent| now_ms.saturating_sub(sent) >= retry_after_ms)`.
abbrev is_due : ℕ → ℕ → Option ℕ → Bool
is_due now_ms retry_after_ms none = true
is_due now_ms retry_after_ms (some sent) = leb retry_after_ms (now_ms - sent)

due_frames : ℕ → ℕ → List InFlightFrame → List InFlightFrame
due_frames now_ms retry_after_ms [] = []
due_frames now_ms retry_after_ms (f ∷ fs) =
    let rest = due_frames now_ms retry_after_ms fs in
    if is_due now_ms retry_after_ms f.last_sent_ms then f ∷ rest else rest

pub ready_to_send : SendWindow → ℕ → ℕ → List InFlightFrame
ready_to_send w now_ms retry_after_ms = due_frames now_ms retry_after_ms (values w.in_flight)

pub len : SendWindow → ℕ
len w = length w.in_flight

pub is_empty : SendWindow → Bool
is_empty w = length w.in_flight == 0

pub retained_bytes : SendWindow → ℕ
retained_bytes w = w.in_flight_bytes
