-- ===== src/Core/ReceiveWindow.antt =====
-- `AckSnapshot` and `ReceiveWindow` of crates/veilid-http-core/src/lib.rs.
-- The `BTreeSet<u32>` is a sorted map into the unit type. Sequence numbers are at most `u32_max`.
pub mod Validity
pub mod Acks
pub mod Duplicates
mod Tests
use veilid_http.Prelude.{
  ℕ, zero, suc, ◌+◌, ◌^◌, Bool, true, false, not, ◌&&◌, Option, none, some, List, [], ltb, leb,
  ◌==◌, if◌then◌else◌, length, bit_and, bit_or,
}
use veilid_http.Prelude.Bits.{test_bit}
use veilid_http.Prelude.Words.{u32_max, saturating_add, checked_sub}
use veilid_http.Prelude.SortedMap.{Map, contains_key, insert, remove}

abbrev pub ack_bitmap_bits : ℕ
ack_bitmap_bits = 64

pub record AckSnapshot : Type 0 where
  pub cumulative : Option ℕ
  pub selective : ℕ

pub record ReceiveWindow : Type 0 where
  pub received : Map (Unit {0})
  pub next_contiguous : ℕ

abbrev pub default : ReceiveWindow
default = record { received = []; next_contiguous = 0 }

-- `while self.received.remove(&self.next_contiguous)`.
advance : ℕ → ReceiveWindow → ReceiveWindow
advance zero w = w
advance (suc fuel) w =
    let rest = advance fuel (record {
      received = remove w.next_contiguous w.received;
      next_contiguous = saturating_add u32_max w.next_contiguous 1;
    }) in
    if contains_key w.next_contiguous w.received then rest else w

-- `ReceiveWindow::record`. Each round removes an element, so the size of the set is enough fuel.
pub record_sequence : ReceiveWindow → ℕ → ReceiveWindow × Bool
record_sequence w sequence =
    let received = insert sequence tt w.received in
    (
      advance (length received) (record w { received = received }),
      not (contains_key sequence w.received),
    )

-- The `for` loop of `snapshot` after its rounds for the offsets below the number.
pub selective_bits : ReceiveWindow → ℕ → ℕ
selective_bits w zero = 0
selective_bits w (suc offset) =
    let selective = selective_bits w offset in
    if contains_key (saturating_add u32_max w.next_contiguous offset) w.received
    then bit_or selective (2 ^ offset)
    else selective

unfoldable pub snapshot : ReceiveWindow → AckSnapshot
snapshot w = record {
  cumulative = checked_sub w.next_contiguous 1;
  selective = selective_bits w ack_bitmap_bits;
}

-- `is_some_and(|value| sequence <= value)` and `map_or(0, |value| value.saturating_add(1))`.
abbrev covered_by : Option ℕ → ℕ → Bool
covered_by none sequence = false
covered_by (some value) sequence = leb sequence value

abbrev base_of : Option ℕ → ℕ
base_of none = 0
base_of (some value) = saturating_add u32_max value 1

abbrev selected_by : ℕ → Option ℕ → Bool
selected_by selective none = false
selected_by selective (some offset) = ltb offset ack_bitmap_bits && test_bit selective offset

-- `ReceiveWindow::acknowledges`.
unfoldable pub acknowledges : AckSnapshot → ℕ → Bool
acknowledges snap sequence =
    if covered_by snap.cumulative sequence
    then true
    else selected_by snap.selective (checked_sub sequence (base_of snap.cumulative))
