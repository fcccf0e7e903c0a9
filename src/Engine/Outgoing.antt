-- ===== src/Engine/Outgoing.antt =====
-- crates/veilid-http-engine/src/outgoing.rs: `RetainedFrame`, `PendingItem` and `OutboundBody`.
pub mod Operations
pub mod Validity
use veilid_http.Prelude.{
  ℕ, zero, suc, ◌+◌, ◌-◌, Bool, true, false, ◌&&◌, ◌||◌, Option, none, some, List, [], ◌∷◌, ◌++◌,
  ltb, leb, ◌==◌, if◌then◌else◌, length, is_empty, Result, ok, err, min, map_err, ◌>>=◌ as bind,
  ◌>>◌ as after, reject_if, ok_or,
}
use veilid_http.Prelude.Int.{ℤ}
use veilid_http.Prelude.HashMap.{Key}
use veilid_http.Prelude.Words.{u32_max, usize_max, saturating_add, checked_add, checked_mul}
use veilid_http.Prelude.Stateful.{and_then}
use veilid_http.Prelude.SortedMap.{Map, insert}
use veilid_http.Wire.Reader.{Bytes}
use veilid_http.Wire.Limits.{default_frame_limit}
use veilid_http.Core.FrameBatcher.{FrameBatcher}
use veilid_http.Core.FrameBatcher
use veilid_http.Stream.Types.{StreamDirection, CompressionMode, StreamEnd}
use veilid_http.Stream.Crates.{MessagePack, Blake3, Zstd}
use veilid_http.Stream.Codec.{encode_data, encode_end}
use veilid_http.Stream.Encoder.{StreamEncoder, new as new_encoder}
use veilid_http.Stream.Error.{StreamProtocolError}
use veilid_http.Engine.Error.{
  EngineError, stream, invalid_window, invalid_pending_bound, pending_limit, sequence_exhausted,
}

pub record RetainedFrame : Type 0 where
  pub sequence : ℕ
  pub encoded : Bytes
  pub last_sent_ms : Option ℕ
  pub attempts : ℕ

pub data PendingItem : Type 0 where
  data_item : Bytes → PendingItem
  end_item : StreamEnd → PendingItem

-- `PendingItem::retained_bytes`.
abbrev pub retained_bytes : PendingItem → ℕ
retained_bytes (data_item bytes) = length bytes
retained_bytes (end_item e) = 64

pub record OutboundBody (Hasher Encoder : Type 0) : Type 0 where
  pub transaction_id : Key
  pub direction : StreamDirection
  pub encoder : Option (StreamEncoder Hasher Encoder)
  pub batcher : FrameBatcher
  pub pending : List PendingItem
  pub pending_bytes : ℕ
  pub in_flight_bytes : ℕ
  pub max_buffered_bytes : ℕ
  pub local_window : ℕ
  pub peer_window : ℕ
  pub next_sequence : ℕ
  pub in_flight : Map RetainedFrame
  pub input_finished : Bool

module _ {Hasher Encoder Decoder : Type 0} (b : Blake3 Hasher) (z : Zstd Encoder Decoder) where
  unfoldable pub new :
      Key
      → StreamDirection
      → CompressionMode
      → ℤ
      → ℕ
      → ℕ
      → ℕ
      → ℕ
      → Result EngineError (OutboundBody Hasher Encoder)
  new id direction mode zstd_level frame_limit reserved_metadata window_frames max_pending_bytes =
      let batcher = FrameBatcher.new frame_limit reserved_metadata in
      after (reject_if (window_frames == 0 || ltb 64 window_frames) (invalid_window window_frames))
        (bind
          (ok_or (checked_mul usize_max (min frame_limit default_frame_limit) window_frames)
            (invalid_pending_bound max_pending_bytes))
          (λ minimum_window_bytes.
            after
              (reject_if
                (ltb max_pending_bytes minimum_window_bytes
                  || ltb max_pending_bytes batcher.target_payload)
                (invalid_pending_bound max_pending_bytes))
              (bind (map_err stream (new_encoder b z direction mode zstd_level)) (λ encoder.
                ok (record {
                  transaction_id = id;
                  direction = direction;
                  encoder = some encoder;
                  batcher = batcher;
                  pending = [];
                  pending_bytes = 0;
                  in_flight_bytes = 0;
                  max_buffered_bytes = max_pending_bytes;
                  local_window = window_frames;
                  peer_window = window_frames;
                  next_sequence = 0;
                  in_flight = [];
                  input_finished = false;
                })))))

module _ {Hasher Encoder : Type 0} where
  abbrev pub max_input_chunk : OutboundBody Hasher Encoder → ℕ
  max_input_chunk o = o.batcher.target_payload

  abbrev pub buffered_bytes : OutboundBody Hasher Encoder → ℕ
  buffered_bytes o = saturating_add usize_max o.pending_bytes o.in_flight_bytes

  abbrev pub effective_window : OutboundBody Hasher Encoder → ℕ
  effective_window o = min o.local_window o.peer_window

  pub is_backpressured : OutboundBody Hasher Encoder → Bool
  is_backpressured o =
      leb o.max_buffered_bytes (buffered_bytes o) || leb (effective_window o) (length o.in_flight)

  pub is_complete : OutboundBody Hasher Encoder → Bool
  is_complete o = o.input_finished && (is_empty o.pending && is_empty o.in_flight)

  pub in_flight_frames : OutboundBody Hasher Encoder → ℕ
  in_flight_frames o = length o.in_flight

  abbrev queued : OutboundBody Hasher Encoder → PendingItem → OutboundBody Hasher Encoder
  queued o item = record o {
    pending_bytes = saturating_add usize_max o.pending_bytes (retained_bytes item);
    pending = o.pending ++ item ∷ [];
  }

  pub queue :
      PendingItem
      → OutboundBody Hasher Encoder
      → Result EngineError (Unit {0}) × OutboundBody Hasher Encoder
  queue item o =
      let actual = saturating_add usize_max (buffered_bytes o) (retained_bytes item) in
      if ltb o.max_buffered_bytes actual
      then (err (pending_limit actual o.max_buffered_bytes), o)
      else (ok tt, queued o item)

  -- The rounds of the `for` loop of `queue_compressed`.
  queue_payloads :
      List Bytes
      → OutboundBody Hasher Encoder
      → Result EngineError (Unit {0}) × OutboundBody Hasher Encoder
  queue_payloads [] o = (ok tt, o)
  queue_payloads (p ∷ ps) o = and_then (queue (data_item p) o) (λ u. queue_payloads ps)

  pub queue_compressed :
      Bytes
      → OutboundBody Hasher Encoder
      → Result EngineError (Unit {0}) × OutboundBody Hasher Encoder
  queue_compressed compressed o =
      let (payloads, batcher) = FrameBatcher.push o.batcher compressed in
      queue_payloads payloads (record o { batcher = batcher })

  abbrev popped :
      OutboundBody Hasher Encoder → PendingItem → List PendingItem → OutboundBody Hasher Encoder
  popped o item rest = record o {
    pending = rest;
    pending_bytes = o.pending_bytes - retained_bytes item;
  }

  abbrev moved :
      OutboundBody Hasher Encoder
      → PendingItem
      → List PendingItem
      → ℕ
      → Bytes
      → OutboundBody Hasher Encoder
  moved o item rest next encoded = record (popped o item rest) {
    next_sequence = next;
    in_flight_bytes = saturating_add usize_max o.in_flight_bytes (length encoded);
    in_flight =
        insert o.next_sequence
          (record {
            sequence = o.next_sequence;
            encoded = encoded;
            last_sent_ms = none;
            attempts = 0;
          })
          o.in_flight;
  }

  -- One round with `item` at the front: the encoded frame fits, the item is popped and the
  -- frame retained. Running out of sequence numbers is met after the item has been popped.
  pub move_front :
      OutboundBody Hasher Encoder
      → PendingItem
      → List PendingItem
      → Bytes
      → Result EngineError (Unit {0}) × OutboundBody Hasher Encoder
  move_front o item rest encoded =
      let projected =
        saturating_add usize_max (buffered_bytes o - retained_bytes item) (length encoded) in
      if ltb o.max_buffered_bytes projected
      then (err (pending_limit projected o.max_buffered_bytes), o)
      else (elim (checked_add u32_max o.next_sequence 1) [
        | none ↦ (err sequence_exhausted, popped o item rest)
        | some next ↦ (ok tt, moved o item rest next encoded)
      ])

  module _ (mp : MessagePack) where
    pub encode_item : OutboundBody Hasher Encoder → PendingItem → Result StreamProtocolError Bytes
    encode_item o (data_item payload) =
        encode_data mp o.transaction_id o.direction o.next_sequence payload
    encode_item o (end_item e) = encode_end mp o.transaction_id o.next_sequence e

    -- `while self.in_flight.len() < self.effective_window()`, over the items that wait.
    pump_items :
        List PendingItem
        → OutboundBody Hasher Encoder
        → Result EngineError (Unit {0}) × OutboundBody Hasher Encoder
    pump_items [] o = (ok tt, o)
    pump_items (item ∷ rest) o =
        if ltb (length o.in_flight) (effective_window o)
        then (elim (encode_item o item) [
          | err e ↦ (err (stream e), o)
          | ok encoded ↦ and_then (move_front o item rest encoded) (λ u. pump_items rest)
        ])
        else (ok tt, o)

    pub pump :
        OutboundBody Hasher Encoder → Result EngineError (Unit {0}) × OutboundBody Hasher Encoder
    pump o = pump_items o.pending o
