-- ===== src/Bridge/Streaming/Opening.antt =====
-- `is_stream_open`, `handle_open` and `handle_open_claimed` of
-- apps/veilid-http-bridge/src/streaming.rs.
pub mod Duplicate
use veilid_http.Prelude.{
  ℕ, ◌+◌, Bool, true, false, not, ◌||◌, ◌==◌, ltb, if◌then◌else◌, is_empty, Option, none, some,
  List, [], ◌∷◌, Result, ok, err, map_err, reject_if, ◌>>=◌ as bind, ◌>>◌ as after,
}
use veilid_http.Prelude.HashMap.{Key, HashMap, get, insert, remove}
use veilid_http.Prelude.Text.{Text, ascii}
use veilid_http.Prelude.Stateful.{Action, ◌>>=◌, ◌>>◌, pure, lift}
use veilid_http.Wire.Reader.{Bytes, Outcome, done, failed, panicked}
use veilid_http.Stream.Types.{
  RequestOpen, RequestAccepted, StreamError, StreamDirection, request, DecodedFrame, request_open,
}
use veilid_http.Stream.Error.{StreamProtocolError}
use veilid_http.Stream.Codec.{decode, encode_error, encode_request_accepted}
use veilid_http.Engine.Incoming.{InboundBody, new as new_inbound}
use veilid_http.Completion.{CompletionStore, CompletionClaim, execute, claim, abandon}
use veilid_http.Http.Translation.{normalize_request}
use veilid_http.Transport.{RouteTarget}
use veilid_http.Bridge.Error.{
  BridgeError, outcome, stream, engine, http, transport, initial_payload_reserved,
  expected_request_open, missing_return_route, invalid_response_window,
}
use veilid_http.Bridge.Streaming.{
  StreamingConfig, ServerTransaction, Task, StreamingBridge, BridgeCrates, Bridge, Transaction,
  BridgeAction, on_world, modify, request_limit, abort_task,
}

-- The reply to an opening that is not executed.
abbrev already_seen : StreamError
already_seen = record {
  code = ascii "transaction-already-seen";
  message = ascii "transaction is already executing or completed; it will not be forwarded again";
  retryable = false;
}

module _ {Method Hasher Encoder Decoder W : Type 0}
    (crates : BridgeCrates Method Hasher Encoder Decoder W) where
  -- The first `match` of `handle_open`.
  abbrev opening_of : DecodedFrame → Result BridgeError (Key × RequestOpen)
  opening_of (request_open id value payload) =
      if is_empty payload then ok (id, value) else err initial_payload_reserved
  opening_of _ = err expected_request_open

  abbrev is_opening : Outcome StreamProtocolError DecodedFrame → Bool
  is_opening (done (request_open id value payload)) = true
  is_opening _ = false

  pub is_stream_open : Bytes → Bool
  is_stream_open encoded = is_opening (decode crates.mp encoded)

  new_receiver :
      StreamingConfig → Key → RequestOpen → Result BridgeError (Option (InboundBody Hasher Decoder))
  new_receiver config id opening =
      if opening.request_body
      then bind
          (map_err engine (
            new_inbound crates.blake3 crates.zstd id request opening.request_compression
              config.window_frames config.max_out_of_order_bytes (request_limit config)))
          (λ receiver. ok (some receiver))
      else ok none

  request_receiver : Key → RequestOpen → BridgeAction crates (Option (InboundBody Hasher Decoder))
  unfolding new_receiver
  request_receiver id opening s = (new_receiver s.config id opening, s)

  -- The checks of the opening, which normalise its head.
  checked_opening : RequestOpen → Result BridgeError RequestOpen
  checked_opening opening =
      bind (map_err http (normalize_request crates.methods opening.head)) (λ head.
        after (reject_if (is_empty opening.return_route_blob) missing_return_route) (
          after
            (reject_if
              (opening.response_receive_window == 0 || ltb 64 opening.response_receive_window)
              invalid_response_window)
            (ok (record opening { head = head }))))

  encode_accepted : Key → BridgeAction crates Bytes
  encode_accepted id s = (
    map_err stream (
        encode_request_accepted crates.mp id
          (record { request_receive_window = s.config.window_frames })),
    s,
  )

  new_transaction :
      RequestOpen → RouteTarget → Bytes → Option (InboundBody Hasher Decoder) → Transaction crates
  new_transaction opening return_target accepted_reply receiver = record {
    return_target = return_target;
    accepted_reply = accepted_reply;
    request_receiver = receiver;
    upstream_body = opening.request_body;
    response_sender = none;
    task = none;
  }

  -- What is checked and built before the table is changed.
  prepare : Key → RequestOpen → BridgeAction crates (RequestOpen × Transaction crates)
  unfolding checked_opening request_receiver encode_accepted new_transaction
  prepare id opening = do
    opening' ← lift (checked_opening opening)
    return_target ← on_world transport (crates.services.import_route opening'.return_route_blob)
    accepted_reply ← encode_accepted id
    receiver ← request_receiver id opening'
    pure (opening', new_transaction opening' return_target accepted_reply receiver)

  -- `transactions.insert`; the transaction has no task yet.
  register : Key → Transaction crates → Bridge crates → Bridge crates
  register id transaction s = record s { transactions = insert id transaction s.transactions }

  -- `tokio::spawn`: the task, whose number is `s.next_task`, waits for the start signal.
  spawn : Bridge crates → Bridge crates
  spawn s = record s { next_task = s.next_task + 1 }

  -- `*transaction.task.lock().await = Some(task)`.
  store_handle : Key → ℕ → Bridge crates → Bridge crates
  store_handle id handle s = (modify id (λ t. record t { task = some handle }) s).1

  -- The reply, then either the start signal or the removal of what was registered.
  reply_and_start : Text → Text → Key → RequestOpen → Bytes → ℕ → BridgeAction crates (Unit {0})
  reply_and_start call_id site_fingerprint id opening accepted_reply handle s =
      let (r, w) = crates.services.app_call_reply call_id accepted_reply s.world in
      elim r [
        | err e ↦ (
          err (transport e),
          record s {
            transactions = remove id s.transactions;
            running = abort_task (some handle) s.running;
            world = w;
          },
        )
        | ok u ↦ (
          ok tt,
          record s {
            running =
                record {
                  handle = handle;
                  transaction_id = id;
                  site_fingerprint = site_fingerprint;
                  opening = opening;
                }
                ∷ s.running;
            world = w;
          },
        )
      ]

  handle_open_claimed : Text → Text → Key → RequestOpen → BridgeAction crates (Unit {0})
  unfolding prepare register spawn store_handle reply_and_start
  handle_open_claimed call_id site_fingerprint id opening = do
    (opening', transaction) ← prepare id opening
    λ s.
        reply_and_start call_id site_fingerprint id opening' transaction.accepted_reply s.next_task
          (store_handle id s.next_task (spawn (register id transaction s)))

  -- `if result.is_err() { self.completion.abandon(transaction_id) }`.
  abandon_if_failed :
      Key
      → Result BridgeError (Unit {0}) × Bridge crates
      → Result BridgeError (Unit {0}) × Bridge crates
  abandon_if_failed id (ok u, s) = (ok u, s)
  abandon_if_failed id (err e, s) = (err e, record s { completion = (abandon id s.completion).1 })

  refuse_duplicate : Text → Key → BridgeAction crates (Unit {0})
  refuse_duplicate call_id id = do
    reply ← lift (map_err stream (encode_error crates.mp id already_seen))
    on_world transport (crates.services.app_call_reply call_id reply)

  -- `match self.completion.claim(transaction_id)`.
  act_on_claim : CompletionClaim → Text → Text → Key → RequestOpen → BridgeAction crates (Unit {0})
  unfolding handle_open_claimed abandon_if_failed refuse_duplicate
  act_on_claim execute call_id site_fingerprint id opening s =
      abandon_if_failed id (handle_open_claimed call_id site_fingerprint id opening s)
  act_on_claim _ call_id site_fingerprint id opening s = refuse_duplicate call_id id s

  open_transaction : ℕ → Text → Text → Key → RequestOpen → BridgeAction crates (Unit {0})
  unfolding act_on_claim
  open_transaction now call_id site_fingerprint id opening s = elim (get id s.transactions) [
    | some existing ↦
        on_world transport (crates.services.app_call_reply call_id existing.accepted_reply) s
    | none ↦
        let (claimed, completion) = claim now id s.completion in
        act_on_claim claimed call_id site_fingerprint id opening
          (record s { completion = completion })
  ]

  pub handle_open : ℕ → Text → Text → Bytes → BridgeAction crates (Unit {0})
  unfolding open_transaction
  handle_open now call_id site_fingerprint encoded = do
    frame ← lift (outcome stream (decode crates.mp encoded))
    (id, opening) ← lift (opening_of frame)
    open_transaction now call_id site_fingerprint id opening
