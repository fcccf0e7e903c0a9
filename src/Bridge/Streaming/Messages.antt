-- ===== src/Bridge/Streaming/Messages.antt =====
-- `handle_message`, `transaction`, `cancel`, `cancel_all`, `send_error` and the end of a spawned task,
-- of apps/veilid-http-bridge/src/streaming.rs.
pub mod Ended
use veilid_http.Prelude.{
  ℕ, ◌%◌, Bool, true, false, not, ◌||◌, ◌&&◌, ◌==◌, if◌then◌else◌, Option, none, some, List, [],
  ◌∷◌, ◌++◌, Result, ok, err, map_err,
}
use veilid_http.Prelude.HashMap.{Key, HashMap, get, insert, remove}
use veilid_http.Prelude.Text.{Text, ascii}
use veilid_http.Prelude.Stateful.{Action, ◌>>=◌, ◌>>◌, pure, fail, lift}
use veilid_http.Wire.Reader.{Bytes, Outcome}
use veilid_http.Stream.Types.{
  DecodedFrame, data_frame, end_frame, StreamDirection, StreamEnd, Ack, StreamError, same_direction,
}
use veilid_http.Stream.Types
use veilid_http.Stream.Codec.{decode, encode_error, encode_ack}
use veilid_http.Engine.Incoming.{InboundBody, ReceiveOutput, receive}
use veilid_http.Engine.Outgoing.{OutboundBody}
use veilid_http.Engine.Outgoing.Operations.{acknowledge}
use veilid_http.Completion.{CompletionStore, lookup, record_completion}
use veilid_http.Transport.{RouteTarget}
use veilid_http.Bridge.Error.{
  BridgeError, outcome, stream, engine, transport, no_request_body, upstream_body_closed,
  backpressure_failed, response_not_open, unknown_transaction,
}
use veilid_http.Bridge.Bundling.{send_encoded_frames, split_frames}
use veilid_http.Bridge.Streaming.{
  ServerTransaction, Task, StreamingBridge, BridgeCrates, Bridge, Transaction, BridgeAction,
  on_world, modify, abort_task,
}

-- `pending_acks.entry(target).or_default().push(frame)`; the map is keyed by the target's text.
abbrev Acks : Type 0
Acks = HashMap (List Bytes)

abbrev or_default : Option (List Bytes) → List Bytes
or_default none = []
or_default (some frames) = frames

add_ack : RouteTarget → Bytes → Acks → Acks
add_ack target frame acks = insert target (or_default (get target acks) ++ frame ∷ []) acks

-- `output.completed || output.ack.selective != 0 || sequence % 4 == 3`.
abbrev should_ack : ℕ → ReceiveOutput → Bool
should_ack sequence output =
    output.completed || (not (output.ack.selective == 0) || sequence % 4 == 3)

module _ {Method Hasher Encoder Decoder W : Type 0}
    (crates : BridgeCrates Method Hasher Encoder Decoder W) where
  -- `self.completion.record(id, None)`, where the durable write succeeds; its two readings of the clock
  -- agree, and the clock is past 1970.
  record_tombstone : ℕ → Key → Bridge crates → Bridge crates
  record_tombstone now id s = record s {
    completion = (record_completion (some now) now id none s.completion).1;
  }

  pub transaction : ℕ → Key → BridgeAction crates (Option (Transaction crates))
  transaction now id s = elim (get id s.transactions) [
    | some found ↦ (ok (some found), s)
    | none ↦
        let (seen, completion) = lookup now id s.completion in
        elim seen [
          | some status ↦ (ok none, record s { completion = completion })
          | none ↦ (err unknown_transaction, record s { completion = completion })
        ]
  ]

  -- The removal of a transaction from the table, and the abort of its task.
  drop_transaction : Key → Transaction crates → Bridge crates → Bridge crates
  drop_transaction id found s = record s {
    transactions = remove id s.transactions;
    running = abort_task found.task s.running;
  }

  pub cancel : ℕ → Key → BridgeAction crates (Unit {0})
  unfolding record_tombstone drop_transaction
  cancel now id s = elim (get id s.transactions) [
    | some found ↦ (ok tt, record_tombstone now id (drop_transaction id found s))
    | none ↦ (ok tt, record s { completion = (lookup now id s.completion).1 })
  ]

  abort_all : ℕ → HashMap (Transaction crates) → Bridge crates → Bridge crates
  abort_all now [] s = s
  abort_all now ((id, found) ∷ drained) s =
      abort_all now drained
        (record_tombstone now id (record s { running = abort_task found.task s.running }))

  pub cancel_all : ℕ → BridgeAction crates (Unit {0})
  unfolding abort_all
  cancel_all now s = (ok tt, abort_all now s.transactions (record s { transactions = [] }))

  pub send_error : RouteTarget → Key → Text → Text → Bool → BridgeAction crates (Unit {0})
  send_error target id code message retryable = do
    frame ← lift (
        map_err stream (
          encode_error crates.mp id
            (record { code = code; message = message; retryable = retryable })))
    on_world transport (crates.services.app_message target frame)

  -- `if let Err(error) = &result { .. let _ = runtime.send_error(..) }`; `failure` is its text.
  pub report_failure : RouteTarget → Key → Option Text → Bridge crates → Bridge crates
  report_failure target id none s = s
  report_failure target id (some message) s =
      (send_error target id (ascii "stream-transaction-failed") message false s).1

  -- What a spawned task does once `run_upstream` has answered: it leaves the table, reports a failure,
  -- records its tombstone, and is over.
  unfoldable pub leave_table : Key → Bridge crates → Bridge crates
  leave_table id s = record s { transactions = remove id s.transactions }

  exit_task : Task → Bridge crates → Bridge crates
  exit_task task s = record s { running = abort_task (some task.handle) s.running }

  pub end_task : ℕ → Task → RouteTarget → Option Text → Bridge crates → Bridge crates
  unfolding leave_table report_failure record_tombstone exit_task
  end_task now task target failure s = exit_task task (
      record_tombstone now task.transaction_id
        (report_failure target task.transaction_id failure (leave_table task.transaction_id s)))

  -- `for chunk in output.logical_chunks`; the sender is held or has been dropped.
  deliver : Key → Bool → List Bytes → BridgeAction crates (Unit {0})
  deliver id sender_held [] = pure tt
  deliver id false (chunk ∷ chunks) = fail upstream_body_closed
  deliver id true (chunk ∷ chunks) = do
    on_world (λ closed. backpressure_failed) (crates.services.send_chunk id chunk)
    deliver id true chunks

  -- `request_receiver.as_mut().ok_or_else(..)?.receive(encoded)?`.
  receive_request : Key → Bytes → Transaction crates → BridgeAction crates ReceiveOutput
  receive_request id encoded found = elim found.request_receiver [
    | none ↦ fail no_request_body
    | some receiver ↦
        let (answer, receiver') = receive crates.blake3 crates.zstd crates.mp encoded receiver in
        (do
          modify id (λ t. record t { request_receiver = some receiver' })
          lift (outcome engine answer))
  ]

  acknowledge_request : Key → ℕ → ReceiveOutput → RouteTarget → Acks → BridgeAction crates Acks
  acknowledge_request id sequence output target acks =
      if should_ack sequence output
      then (do
        frame ← lift (map_err stream (encode_ack crates.mp id output.ack))
        pure (add_ack target frame acks))
      else pure acks

  -- The rest of the arm of request data and of the end of the request: a transaction that has
  -- completed is passed over.
  receive_for : Key → ℕ → Bytes → Acks → Option (Transaction crates) → BridgeAction crates Acks
  unfolding deliver receive_request acknowledge_request
  receive_for id sequence encoded acks none = pure acks
  receive_for id sequence encoded acks (some t) = do
    output ← receive_request id encoded t
    deliver id t.upstream_body output.logical_chunks
    (if output.completed then modify id (λ u. record u { upstream_body = false }) else pure tt)
    acknowledge_request id sequence output t.return_target acks

  receive_body : ℕ → Key → ℕ → Bytes → Acks → BridgeAction crates Acks
  unfolding receive_for
  receive_body now id sequence encoded acks = do
    found ← transaction now id
    receive_for id sequence encoded acks found

  -- `response_sender.as_mut().ok_or_else(..)?.acknowledge(value)?`; `notify_waiters` wakes the task.
  acknowledge_sender :
      Key → Ack → Acks → Option (OutboundBody Hasher Encoder) → BridgeAction crates Acks
  acknowledge_sender id value acks none = fail response_not_open
  acknowledge_sender id value acks (some sender) =
      let (answer, sender') = acknowledge crates.mp crates.blake3 crates.zstd value sender in
      (do
        modify id (λ u. record u { response_sender = some sender' })
        lift (map_err engine answer)
        pure acks)

  acknowledge_for : Key → Ack → Acks → Option (Transaction crates) → BridgeAction crates Acks
  unfolding acknowledge_sender
  acknowledge_for id value acks none = pure acks
  acknowledge_for id value acks (some t) = acknowledge_sender id value acks t.response_sender

  -- The arm of an acknowledgement of the response.
  receive_ack : ℕ → Key → Ack → Acks → BridgeAction crates Acks
  unfolding acknowledge_for
  receive_ack now id value acks = do found ← transaction now id; acknowledge_for id value acks found

  handle_frame : ℕ → Bytes → Acks → DecodedFrame → BridgeAction crates Acks
  unfolding receive_body receive_ack
  handle_frame now encoded acks (data_frame id direction sequence payload) =
      if same_direction direction StreamDirection.request
      then receive_body now id sequence encoded acks
      else pure acks
  handle_frame now encoded acks (end_frame id sequence value) =
      if same_direction value.direction StreamDirection.request
      then receive_body now id sequence encoded acks
      else pure acks
  handle_frame now encoded acks (Types.ack id value) =
      if same_direction value.direction StreamDirection.response
      then receive_ack now id value acks
      else pure acks
  handle_frame now encoded acks (Types.cancel id value) = do cancel now id; pure acks
  handle_frame now encoded acks (Types.error id value) = do cancel now id; pure acks
  handle_frame now encoded acks _ = pure acks

  handle_frames : ℕ → List Bytes → Acks → BridgeAction crates Acks
  unfolding handle_frame
  handle_frames now [] acks = pure acks
  handle_frames now (encoded ∷ rest) acks = do
    frame ← lift (outcome stream (decode crates.mp encoded))
    acks' ← handle_frame now encoded acks frame
    handle_frames now rest acks'

  -- `for (target, frames) in pending_acks`, in the order of the list.
  send_acks : Acks → BridgeAction crates (Unit {0})
  send_acks [] = pure tt
  send_acks ((target, frames) ∷ acks) = do
    on_world (λ e. e) (send_encoded_frames crates.services.app_message target frames)
    send_acks acks

  pub handle_message : ℕ → Bytes → BridgeAction crates (Unit {0})
  unfolding handle_frames send_acks
  handle_message now payload = do
    frames ← lift (outcome (λ e. e) (split_frames crates.mp.metadata.from_slice payload))
    acks ← handle_frames now frames []
    send_acks acks
