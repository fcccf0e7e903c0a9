-- ===== src/Engine/Incoming.antt =====
-- crates/veilid-http-engine/src/incoming.rs: `ReceiveOutput` and `InboundBody`.
pub mod Completion
mod Tests
use veilid_http.Prelude.{
  ℕ, zero, suc, ◌+◌, ◌-◌, ◌/◌, ◌%◌, Bool, true, false, not, ◌||◌, Option, none, some, List, [], ◌∷◌,
  ◌++◌, ltb, ◌==◌, if◌then◌else◌, is_empty, bytes_eq, Result, ok, err, map_err, reject_if,
  ◌>>=◌ as bind, ◌>>◌ as after,
}
use veilid_http.Prelude.HashMap.{Key}
use veilid_http.Prelude.Words.{u32_max, checked_add}
use veilid_http.Prelude.Stateful.{Action, ◌>>=◌, ◌>>◌, lift}
use veilid_http.Wire.Reader.{Bytes, Outcome, done, failed, panicked}
use veilid_http.Core.ReceiveWindow.{ReceiveWindow, record_sequence, snapshot, default}
use veilid_http.Core.Reassembler.{Reassembler}
use veilid_http.Core.Reassembler
use veilid_http.Stream.Types.{
  StreamDirection, same_direction, CompressionMode, StreamEnd, same_end, Ack, from_snapshot,
  DecodedFrame, data_frame, end_frame,
}
use veilid_http.Stream.Crates.{MessagePack, Blake3, Zstd}
use veilid_http.Stream.Codec.{decode}
use veilid_http.Stream.Decoder.{
  StreamDecoder, new as new_decoder, push as decoder_push, finish as decoder_finish,
}
use veilid_http.Engine.Error.{
  EngineError, stream, core, invalid_window, already_finished, transaction_mismatch,
  direction_mismatch, unexpected_frame, conflicting_end,
}

pub record ReceiveOutput : Type 0 where
  pub logical_chunks : List Bytes
  pub ack : Ack
  pub completed : Bool

pub record InboundBody (Hasher Decoder : Type 0) : Type 0 where
  pub transaction_id : Key
  pub direction : StreamDirection
  pub decoder : Option (StreamDecoder Hasher Decoder)
  pub receive : ReceiveWindow
  pub reassembler : Reassembler
  pub capacity : ℕ
  pub pending_end : Option (ℕ × StreamEnd)
  pub completed : Bool

module _ {Hasher Encoder Decoder : Type 0} (b : Blake3 Hasher) (z : Zstd Encoder Decoder) where
  pub new :
      Key
      → StreamDirection
      → CompressionMode
      → ℕ
      → ℕ
      → ℕ
      → Result EngineError (InboundBody Hasher Decoder)
  new id direction mode capacity max_out_of_order_bytes max_logical_length =
      after (reject_if (capacity == 0 || ltb 64 capacity) (invalid_window capacity)) (
        bind (map_err stream (new_decoder b z direction mode max_logical_length)) (λ decoder.
          ok (record {
            transaction_id = id;
            direction = direction;
            decoder = some decoder;
            receive = default;
            reassembler = Reassembler.new max_out_of_order_bytes;
            capacity = capacity;
            pending_end = none;
            completed = false;
          })))

-- `u64::count_ones`: the ones among the lowest bits, 64 of them.
pub ones_below : ℕ → ℕ → ℕ
ones_below zero n = 0
ones_below (suc bits) n = n % 2 + ones_below bits (n / 2)

abbrev pub count_ones : ℕ → ℕ
count_ones n = ones_below 64 n

-- Whether all frames before the end frame have been received.
abbrev pub data_complete : Option ℕ → ℕ → Bool
data_complete none end_sequence = end_sequence == 0
data_complete (some sequence) end_sequence = elim (checked_add u32_max sequence 1) [
  | none ↦ false
  | some next ↦ next == end_sequence
]

abbrev unless_empty : Bytes → List Bytes → List Bytes
unless_empty chunk chunks = if is_empty chunk then chunks else chunk ∷ chunks

module _ {Hasher Decoder : Type 0} where
  pub ack : InboundBody Hasher Decoder → Ack
  ack i =
      let snap = snapshot i.receive in
      from_snapshot i.direction snap (i.capacity - count_ones snap.selective)

  abbrev pub is_complete : InboundBody Hasher Decoder → Bool
  is_complete i = i.completed

  pub validate : InboundBody Hasher Decoder → Key → StreamDirection → Result EngineError (Unit {0})
  validate i transaction_id direction =
      after (reject_if (not (bytes_eq transaction_id i.transaction_id)) transaction_mismatch)
        (reject_if (not (same_direction direction i.direction)) direction_mismatch)

  abbrev output : List Bytes → InboundBody Hasher Decoder → ReceiveOutput
  output logical_chunks i = record {
    logical_chunks = logical_chunks;
    ack = ack i;
    completed = i.completed;
  }

  module _ {Encoder : Type 0} (b : Blake3 Hasher) (z : Zstd Encoder Decoder) where
    -- `let decoder = self.decoder.take()..` and what follows in `try_finish`.
    close :
        ℕ
        → StreamEnd
        → List Bytes
        → InboundBody Hasher Decoder
        → Result EngineError (List Bytes) × InboundBody Hasher Decoder
    close end_sequence last chunks i = elim i.decoder [
      | none ↦ (err already_finished, i)
      | some decoder ↦ elim (decoder_finish b z decoder last) [
        | err e ↦ (err (stream e), record i { decoder = none })
        | ok trailing ↦ (
          ok (chunks ++ unless_empty trailing []),
          record i {
            decoder = none;
            receive = (record_sequence i.receive end_sequence).0;
            completed = true;
          },
        )
      ]
    ]

    pub try_finish : List Bytes → Action EngineError (InboundBody Hasher Decoder) (List Bytes)
    try_finish chunks i = elim i.pending_end [
      | none ↦ (ok chunks, i)
      | some (end_sequence, last) ↦
          if data_complete (snapshot i.receive).cumulative end_sequence
          then close end_sequence last chunks i
          else (ok chunks, i)
    ]

    -- The `for` loop of `receive` over the chunks that have become contiguous.
    decompress_all : List Bytes → Action EngineError (InboundBody Hasher Decoder) (List Bytes)
    decompress_all [] i = (ok [], i)
    decompress_all (c ∷ cs) i = elim i.decoder [
      | none ↦ (err already_finished, i)
      | some decoder ↦
          let (r, decoder') = decoder_push b z c false decoder in
          let i' = record i { decoder = some decoder' } in
          elim r [
            | err e ↦ (err (stream e), i')
            | ok logical ↦
                let (rs, i'') = decompress_all cs i' in
                (bind rs (λ chunks. ok (unless_empty logical chunks)), i'')
          ]
    ]

    abbrev finish_and_output :
        List Bytes → Action EngineError (InboundBody Hasher Decoder) ReceiveOutput
    finish_and_output chunks = do chunks' ← try_finish chunks; λ i. (ok (output chunks' i), i)

    accept_data : ℕ → Bytes → Action EngineError (InboundBody Hasher Decoder) ReceiveOutput
    accept_data sequence payload i =
        let (ready, reassembler) = Reassembler.push i.reassembler sequence payload in
        (do
          compressed ← lift (map_err core ready)
          chunks ← decompress_all compressed
          finish_and_output chunks)
          (record i { reassembler = reassembler })

    -- The arm of a data frame once it is validated. A completed body does not record the number.
    receive_data : ℕ → Bytes → Action EngineError (InboundBody Hasher Decoder) ReceiveOutput
    receive_data sequence payload i =
        if i.completed
        then (ok (output [] i), i)
        else (let (new, receive) = swap (record_sequence i.receive sequence) in
            let i' = record i { receive = receive } in
            if new then accept_data sequence payload i' else (ok (output [] i'), i'))
      where
        swap : ReceiveWindow × Bool → Bool × ReceiveWindow
        swap (w, fresh) = (fresh, w)

    receive_end : ℕ → StreamEnd → Action EngineError (InboundBody Hasher Decoder) ReceiveOutput
    receive_end sequence value i =
        if i.completed then (ok (output [] i), i) else elim i.pending_end [
          | none ↦ finish_and_output [] (record i { pending_end = some (sequence, value) })
          | some (existing_sequence, existing) ↦
              if not (existing_sequence == sequence) || not (same_end existing value)
              then (err conflicting_end, i)
              else finish_and_output [] i
        ]

    receive_frame : DecodedFrame → Action EngineError (InboundBody Hasher Decoder) ReceiveOutput
    receive_frame (data_frame id direction sequence payload) i = elim (validate i id direction) [
      | err e ↦ (err e, i)
      | ok u ↦ receive_data sequence payload i
    ]
    receive_frame (end_frame id sequence value) i = elim (validate i id value.direction) [
      | err e ↦ (err e, i)
      | ok u ↦ receive_end sequence value i
    ]
    receive_frame _ i = (err unexpected_frame, i)

    -- The outcome of `receive` with the body as it is left; a panic leaves none.
    pub receive :
        MessagePack
        → Bytes
        → InboundBody Hasher Decoder
        → Outcome EngineError ReceiveOutput × InboundBody Hasher Decoder
    receive mp encoded i = elim (decode mp encoded) [
      | panicked ↦ (panicked, i)
      | failed e ↦ (failed (stream e), i)
      | done frame ↦
          let (r, i') = receive_frame frame i in (elim r [ ok o ↦ done o | err e ↦ failed e ], i')
    ]
