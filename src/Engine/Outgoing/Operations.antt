-- ===== src/Engine/Outgoing/Operations.antt =====
-- The operations of `OutboundBody` that the bridge and the client call.
pub mod Kept
pub mod Safety
mod Tests
use veilid_http.Prelude.{
  ℕ, ◌+◌, ◌-◌, Bool, true, false, not, ◌&&◌, Option, none, some, List, [], ◌∷◌, ltb, leb,
  if◌then◌else◌, length, Result, ok, err, map_err,
}
use veilid_http.Prelude.Words.{u32_max, saturating_add}
use veilid_http.Prelude.SortedMap.{Map, get, insert, remove, keys}
use veilid_http.Prelude.Stateful.{Action, and_then, ◌>>=◌, ◌>>◌, pure, fail}
use veilid_http.Wire.Reader.{Bytes}
use veilid_http.Core.FrameBatcher
use veilid_http.Core.RetryPolicy.{RetryPolicy, delay_ms}
use veilid_http.Core.SendWindow.{acknowledged_keys}
use veilid_http.Stream.Types.{Ack, ack_snapshot, same_direction, StreamEnd}
use veilid_http.Stream.Crates.{MessagePack, Blake3, Zstd}
use veilid_http.Stream.Encoder.{StreamEncoder, push as encoder_push, finish as encoder_finish}
use veilid_http.Engine.Error.{
  EngineError, stream, invalid_window, input_chunk_too_large, already_finished, direction_mismatch,
}
use veilid_http.Engine.Outgoing.{
  RetainedFrame, PendingItem, data_item, end_item, OutboundBody, max_input_chunk, queue,
  queue_compressed, pump,
}

module _ {Hasher Encoder : Type 0} where
  -- `if let Some(payload) = self.batcher.flush() { self.queue(PendingItem::Data(payload))?; }`.
  pub flush_batcher : Action EngineError (OutboundBody Hasher Encoder) (Unit {0})
  flush_batcher o =
      let (flushed, batcher) = FrameBatcher.flush o.batcher in
      elim flushed [
        | none ↦ (ok tt, record o { batcher = batcher })
        | some payload ↦ queue (data_item payload) (record o { batcher = batcher })
      ]

  mark_finished : Action EngineError (OutboundBody Hasher Encoder) (Unit {0})
  mark_finished o = (ok tt, record o { input_finished = true })

  -- `if flush { .. }` in `push`.
  flush_if : Bool → Action EngineError (OutboundBody Hasher Encoder) (Unit {0})
  flush_if flush = if flush then flush_batcher else pure tt

  -- The body of the `for` loop of `acknowledge`, and the loop.
  pub release_one : OutboundBody Hasher Encoder → ℕ → OutboundBody Hasher Encoder
  release_one o sequence = elim (get sequence o.in_flight) [
    | none ↦ o
    | some frame ↦ record o {
      in_flight = remove sequence o.in_flight;
      in_flight_bytes = o.in_flight_bytes - length frame.encoded;
    }
  ]

  pub release : OutboundBody Hasher Encoder → List ℕ → OutboundBody Hasher Encoder
  release o [] = o
  release o (s ∷ ss) = release (release_one o s) ss

  module _ {Decoder : Type 0} (mp : MessagePack) (b : Blake3 Hasher)
      (z : Zstd Encoder Decoder) where
    -- `self.encoder.as_mut().ok_or(AlreadyFinished)?.push(logical, flush)?`.
    encode_input : Bytes → Bool → Action EngineError (OutboundBody Hasher Encoder) Bytes
    encode_input logical flush o = elim o.encoder [
      | none ↦ (err already_finished, o)
      | some encoder ↦
          let (r, encoder') = encoder_push b z logical flush encoder in
          (map_err stream r, record o { encoder = some encoder' })
    ]

    push_input : Bytes → Bool → Action EngineError (OutboundBody Hasher Encoder) (Unit {0})
    unfolding encode_input
    push_input logical flush = do
      encoded ← encode_input logical flush
      queue_compressed encoded
      flush_if flush
      pump mp

    pub push : Bytes → Bool → Action EngineError (OutboundBody Hasher Encoder) (Unit {0})
    push logical flush o =
        if o.input_finished
        then (err already_finished, o)
        else if ltb (max_input_chunk o) (length logical)
        then (err (input_chunk_too_large (length logical) (max_input_chunk o)), o)
        else push_input logical flush o

    -- `self.encoder.take().ok_or(AlreadyFinished)?.finish()?`.
    close_encoder : Action EngineError (OutboundBody Hasher Encoder) (Bytes × StreamEnd)
    close_encoder o = elim o.encoder [
      | none ↦ (err already_finished, o)
      | some encoder ↦ (map_err stream (encoder_finish b z encoder), record o { encoder = none })
    ]

    close_input : Action EngineError (OutboundBody Hasher Encoder) (Unit {0})
    unfolding close_encoder
    close_input = do
      (trailing, last) ← close_encoder
      queue_compressed trailing
      flush_batcher
      queue (end_item last)
      mark_finished
      pump mp

    pub finish_input : Action EngineError (OutboundBody Hasher Encoder) (Unit {0})
    finish_input o = if o.input_finished then (ok tt, o) else close_input o

    -- `usize` holds every u32, so `usize::try_from` succeeds.
    pub set_peer_window : ℕ → Action EngineError (OutboundBody Hasher Encoder) (Unit {0})
    set_peer_window receive_window o =
        if ltb 64 receive_window
        then (err (invalid_window receive_window), o)
        else pump mp (record o { peer_window = receive_window })

    pub acknowledge : Ack → Action EngineError (OutboundBody Hasher Encoder) (List ℕ)
    acknowledge a o =
        if not (same_direction a.direction o.direction)
        then (err direction_mismatch, o)
        else if ltb 64 a.receive_window
        then (err (invalid_window a.receive_window), o)
        else (let acknowledged = acknowledged_keys (ack_snapshot a) (keys o.in_flight) in
            and_then (pump mp (release (record o { peer_window = a.receive_window }) acknowledged))
              (λ u. pure acknowledged))

-- `last_sent_ms.is_none_or(..)` in `take_sendable`.
abbrev pub is_ready : ℕ → RetryPolicy → RetainedFrame → Bool
is_ready now_ms policy frame = elim frame.last_sent_ms [
  | none ↦ true
  | some last ↦ leb (delay_ms policy (frame.attempts - 1)) (now_ms - last)
]

ready_keys : ℕ → RetryPolicy → Map RetainedFrame → List ℕ
ready_keys now_ms policy [] = []
ready_keys now_ms policy ((s, f) ∷ m) =
    let rest = ready_keys now_ms policy m in if is_ready now_ms policy f then s ∷ rest else rest

abbrev dispatched : ℕ → RetainedFrame → RetainedFrame
dispatched now_ms frame = record frame {
  last_sent_ms = some now_ms;
  attempts = saturating_add u32_max frame.attempts 1;
}

-- The second loop of `take_sendable`.
dispatch : ℕ → List ℕ → Map RetainedFrame → List RetainedFrame × Map RetainedFrame
dispatch now_ms [] m = ([], m)
dispatch now_ms (s ∷ ss) m = elim (get s m) [
  | none ↦ dispatch now_ms ss m
  | some frame ↦
      let (output, m') = dispatch now_ms ss (insert s (dispatched now_ms frame) m) in
      (dispatched now_ms frame ∷ output, m')
]

pub take_sendable :
    {Hasher Encoder : Type 0}
    → ℕ
    → RetryPolicy
    → OutboundBody Hasher Encoder
    → List RetainedFrame × OutboundBody Hasher Encoder
take_sendable now_ms policy o =
    let (output, in_flight) = dispatch now_ms (ready_keys now_ms policy o.in_flight) o.in_flight in
    (output, record o { in_flight = in_flight })
