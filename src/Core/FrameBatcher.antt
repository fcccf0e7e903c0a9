-- ===== src/Core/FrameBatcher.antt =====
-- `FrameBatcher` of crates/veilid-http-core/src/lib.rs.
pub mod Batching
mod Tests
use veilid_http.Prelude.{
  ℕ, zero, suc, ◌+◌, ◌-◌, ◌==◌, if◌then◌else◌, Option, none, some, List, [], ◌∷◌, ◌++◌, length,
  take, drop, is_empty, min, max,
}
use veilid_http.Wire.Limits.{default_frame_limit, header_len}

abbrev pub Bytes : Type 0
Bytes = List ℕ

pub record FrameBatcher : Type 0 where
  pub target_payload : ℕ
  pub buffer : Bytes

unfoldable pub new : ℕ → ℕ → FrameBatcher
new frame_limit reserved_metadata = record {
  target_payload = max (min frame_limit default_frame_limit - (header_len + reserved_metadata)) 1;
  buffer = [];
}

-- `while !input.is_empty()`. A round takes a byte at least, so the input's length is enough fuel.
push_loop : ℕ → FrameBatcher → Bytes → List Bytes × FrameBatcher
push_loop zero b input = ([], b)
push_loop (suc fuel) b [] = ([], b)
push_loop (suc fuel) b (x ∷ xs) =
    let input = x ∷ xs in
    let taken = min (b.target_payload - length b.buffer) (length input) in
    let buffer = b.buffer ++ take taken input in
    let full = length buffer == b.target_payload in
    let (output, b') =
      push_loop fuel (record b { buffer = if full then [] else buffer }) (drop taken input) in
    ((if full then buffer ∷ output else output), b')

pub push : FrameBatcher → Bytes → List Bytes × FrameBatcher
push b input = push_loop (length input) b input

pub flush : FrameBatcher → Option Bytes × FrameBatcher
flush b = if is_empty b.buffer then (none, b) else (some b.buffer, record b { buffer = [] })
