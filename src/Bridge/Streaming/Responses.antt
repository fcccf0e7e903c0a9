-- ===== src/Bridge/Streaming/Responses.antt =====
-- The response's part of `run_upstream` of apps/veilid-http-bridge/src/streaming.rs: its start, and
-- what its loops do, with `push_response_chunk` and `dispatch_ready`.
use veilid_http.Prelude.{
  ℕ, zero, suc, ◌==◌, Bool, true, false, if◌then◌else◌, Option, none, some, List, [], ◌∷◌, map,
  length, take, drop, Result, ok, err, map_err,
}
use veilid_http.Prelude.HashMap.{Key, get}
use veilid_http.Prelude.Int.{pos}
use veilid_http.Prelude.Text.{Text}
use veilid_http.Prelude.Stateful.{Action, ◌>>=◌, ◌>>◌, pure, lift}
use veilid_http.Wire.Reader.{Bytes}
use veilid_http.Core.RetryPolicy.{RetryPolicy}
use veilid_http.Stream.Types.{StreamDirection, CompressionMode}
use veilid_http.Stream.Codec.{encode_response_open}
use veilid_http.Engine.Outgoing.{OutboundBody, RetainedFrame, max_input_chunk, new as new_outbound}
use veilid_http.Engine.Outgoing.Operations.{push, finish_input, set_peer_window, take_sendable}
use veilid_http.Http.Headers.{strip_hop_by_hop}
use veilid_http.Bridge.Upstream.{response_headers}
use veilid_http.Bridge.Error.{
  BridgeError, stream, engine, transport, response_not_initialized, panic,
}
use veilid_http.Bridge.Bundling.{send_encoded_frames}
use veilid_http.Bridge.Streaming.{
  Task, BridgeCrates, Bridge, Transaction, BridgeAction, on_world, modify,
}

-- `chunk.chunks(limit)`. Each round takes a byte at least, so the length is enough fuel.
chunks_of : ℕ → ℕ → Bytes → List Bytes
chunks_of zero limit bytes = []
chunks_of (suc fuel) limit [] = []
chunks_of (suc fuel) limit (b ∷ bytes) =
    take limit (b ∷ bytes) ∷ chunks_of fuel limit (drop limit (b ∷ bytes))

abbrev is_last : List Bytes → Bool
is_last [] = true
is_last (part ∷ parts) = false

abbrev encoded_frames : List RetainedFrame → List Bytes
encoded_frames frames = map (λ frame. frame.encoded) frames

abbrev retry_policy : RetryPolicy
retry_policy = record { initial_ms = 250; maximum_ms = 10000 }

module _ {Method Hasher Encoder Decoder W : Type 0}
    (crates : BridgeCrates Method Hasher Encoder Decoder W) where
  -- `response_sender.lock().await.as_mut()`.
  sender_of : Key → Bridge crates → Option (OutboundBody Hasher Encoder)
  sender_of id s = elim (get id s.transactions) [ none ↦ none | some found ↦ found.response_sender ]

  abbrev set_sender : Key → OutboundBody Hasher Encoder → BridgeAction crates (Unit {0})
  set_sender id sender = modify id (λ t. record t { response_sender = some sender })

  new_sender : Task → Bridge crates → Result BridgeError (OutboundBody Hasher Encoder)
  new_sender task s =
      elim (new_outbound crates.blake3 crates.zstd task.transaction_id StreamDirection.response
        CompressionMode.zstd (pos 3) s.config.frame_bytes 256 s.config.window_frames
        s.config.max_pending_bytes) [
          | err e ↦ err (engine e)
          | ok sender ↦
              let (answer, sender') =
                set_peer_window crates.mp crates.blake3 crates.zstd
                  task.opening.response_receive_window sender in
              elim answer [ ok u ↦ ok sender' | err e ↦ err (engine e) ]
        ]

  encode_response : Task → ℕ → List (Text × Option Text) → BridgeAction crates Bytes
  encode_response task status fields s = (
    map_err stream (
        encode_response_open crates.mp task.transaction_id
          (record {
            head = record { status = status; headers = strip_hop_by_hop (response_headers fields) };
            response_compression = CompressionMode.zstd;
            response_body = true;
            request_receive_window = s.config.window_frames;
          })
          []),
    s,
  )

  -- From the upstream's head to `*transaction.response_sender.lock().await = Some(outbound)`.
  pub start_response :
      Task → Transaction crates → ℕ → List (Text × Option Text) → BridgeAction crates (Unit {0})
  unfolding new_sender encode_response
  start_response task found status fields = do
    frame ← encode_response task status fields
    on_world transport (crates.services.app_message found.return_target frame)
    sender ← λ s. (new_sender task s, s)
    set_sender task.transaction_id sender

  -- The rounds of `push_response_chunk`: the last part flushes.
  push_parts : List Bytes → Action BridgeError (OutboundBody Hasher Encoder) (Unit {0})
  push_parts [] = pure tt
  push_parts (part ∷ parts) = do
    λ sender.
        let (r, sender') = push crates.mp crates.blake3 crates.zstd part (is_last parts) sender in
        (map_err engine r, sender')
    push_parts parts

  -- A chunk size of 0 panics in `chunks`.
  pub push_response_chunk : Key → Bytes → BridgeAction crates (Unit {0})
  unfolding sender_of push_parts
  push_response_chunk id chunk s = elim (sender_of id s) [
    | none ↦ (err response_not_initialized, s)
    | some sender ↦
        let limit = max_input_chunk sender in
        let (r, sender') = push_parts (chunks_of (length chunk) limit chunk) sender in
        if limit == 0 then (err panic, s) else (do set_sender id sender'; lift r) s
  ]

  pub dispatch_ready : ℕ → Key → Transaction crates → BridgeAction crates (Unit {0})
  dispatch_ready now_ms id found s = elim (sender_of id s) [
    | none ↦
        on_world (λ e. e) (send_encoded_frames crates.services.app_message found.return_target []) s
    | some sender ↦
        let (frames, sender') = take_sendable now_ms retry_policy sender in
        (do
          set_sender id sender'
          on_world (λ e. e)
              (send_encoded_frames crates.services.app_message found.return_target
                (encoded_frames frames)))
          s
  ]

  -- `.ok_or_else(..)?.finish_input()?` after the upstream's last chunk.
  pub finish_response : Key → BridgeAction crates (Unit {0})
  finish_response id s = elim (sender_of id s) [
    | none ↦ (err response_not_initialized, s)
    | some sender ↦
        let (r, sender') = finish_input crates.mp crates.blake3 crates.zstd sender in
        (do set_sender id sender'; lift (map_err engine r)) s
  ]
