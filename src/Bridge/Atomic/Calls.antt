-- ===== src/Bridge/Atomic/Calls.antt =====
-- `handle_atomic_call` of apps/veilid-http-bridge/src/main.rs.
--
-- Other tasks change the store whenever the handler waits, as `others` says.
pub mod Waiting
mod Tests
use veilid_http.Prelude.Words.{u64_max}
use veilid_http.Prelude.{
  Option, none, List, ℕ, zero, suc, ◌-◌, ◌*◌, min, Bool, true, false, leb, if◌then◌else◌, ◌++◌,
  some, Result, ok, err,
}
use veilid_http.Prelude.HashMap.{Key}
use veilid_http.Prelude.Text.{Text, ascii}
use veilid_http.Wire.Reader.{Bytes, Outcome, done, failed, panicked}
use veilid_http.Wire.Frame.{Frame, decode}
use veilid_http.Wire.Error.{WireError}
use veilid_http.Http.Translation.{Urls}
use veilid_http.Http.Atomic.{AtomicCrates}
use veilid_http.Completion.{
  CompletionStore, CompletionClaim, execute, replay, wait, Notify, claim, record_completion,
  abandon,
}
use veilid_http.Bridge.Error.{BridgeError}
use veilid_http.Bridge.Upstream.{HeaderTypes, UpstreamRequest}
use veilid_http.Bridge.Config.{Config}
use veilid_http.Bridge.Atomic.{Display, World, nil_id, small_error_response, forward_atomic}

-- `now_unix_seconds().unwrap_or(u64::MAX)`.
abbrev pub seconds_or_max : Option ℕ → ℕ
seconds_or_max none = u64_max
seconds_or_max (some now) = now

module _ {Method Decoder Url Name Value W : Type 0} (crates : AtomicCrates Method Decoder)
    (urls : Urls Url) (types : HeaderTypes Name Value) (display : Display)
    (world : World (UpstreamRequest Method Url Name Value) W) (config : Config)
    (others : W → CompletionStore → CompletionStore) where
  abbrev error_response : Key → ℕ → Text → Result BridgeError Bytes
  error_response = small_error_response crates urls types display world config

  -- `if let Ok(response) = response { app_call_reply(..) }`.
  reply_ok : Text → Result BridgeError Bytes → W → W
  reply_ok call_id (ok response) w = world.app_call_reply call_id response w
  reply_ok call_id (err error) w = w

  wake_all : Option (List Notify) → W → W
  wake_all none w = w
  wake_all (some woken) w = world.wake woken w

  -- `record` and the reply with the recorded response.
  conclude : Key → Text → Bytes → CompletionStore → W → CompletionStore × W
  unfolding wake_all
  conclude transaction_id call_id response store w =
      let (woken, store') =
        record_completion (world.unix_seconds w) (seconds_or_max (world.unix_seconds w))
          transaction_id (some response) store in
      (store', world.app_call_reply call_id response (wake_all woken w))

  -- The arm `CompletionClaim::Execute` after `forward_atomic`.
  executed : Key → Text → Result BridgeError Bytes → CompletionStore → W → CompletionStore × W
  unfolding conclude
  executed transaction_id call_id (ok response) store w =
      conclude transaction_id call_id response store w
  executed transaction_id call_id (err error) store w =
      let (woken, store') = abandon transaction_id store in
      elim (error_response transaction_id 500
        (ascii "atomic translation failed: " ++ display.bridge error)) [
          | ok response ↦ conclude transaction_id call_id response store' (world.wake woken w)
          | err encoding_error ↦ (store', world.wake woken w)
        ]

  abbrev pub overall_ms : ℕ
  overall_ms = 1000 * config.overall_timeout

  -- The arm `CompletionClaim::Wait`; `true` when the handler returns.
  waited : Key → Text → Notify → ℕ → CompletionStore → W → Bool × CompletionStore × W
  unfolding reply_ok
  waited transaction_id call_id notify elapsed store w =
      if leb overall_ms elapsed
      then (
        true,
        store,
        reply_ok call_id
            (error_response transaction_id 504
              (ascii "timed out waiting for the original transaction execution"))
            w,
      )
      else (false, store, (world.sleep notify (min (overall_ms - elapsed) 50) w).1)

  -- The `match` on a claim.
  pub claimed :
      (site_fingerprint call_id : Text)
      → Bytes
      → Key
      → (elapsed : ℕ) → CompletionClaim × CompletionStore
      → W
      → Bool × CompletionStore × W
  unfolding executed waited reply_ok
  claimed site_fingerprint call_id payload transaction_id elapsed (execute, store) w =
      let (response, w') =
        forward_atomic crates urls types display world config site_fingerprint payload w in
      let (store', w'') = executed transaction_id call_id response (others w' store) w' in
      (true, store', w'')
  claimed site_fingerprint call_id payload transaction_id elapsed (replay response, store) w =
      (true, store, world.app_call_reply call_id response w)
  claimed site_fingerprint call_id payload transaction_id elapsed (CompletionClaim.tombstone, store)
        w =
      (
        true,
        store,
        reply_ok call_id
            (error_response transaction_id 409
              (ascii "transaction already completed; retained response is unavailable"))
            w,
      )
  claimed site_fingerprint call_id payload transaction_id elapsed (wait notify, store) w =
      waited transaction_id call_id notify elapsed store w

  -- The rounds of the `loop`, as many as `fuel`.
  pub rounds :
      ℕ
      → (site_fingerprint call_id : Text) → Bytes
      → Key
      → (started : ℕ) → CompletionStore
      → W
      → Bool × CompletionStore × W
  unfolding claimed
  rounds zero site_fingerprint call_id payload transaction_id started store w = (false, store, w)
  rounds (suc fuel) site_fingerprint call_id payload transaction_id started store w =
      let (returned, store', w') =
        claimed site_fingerprint call_id payload transaction_id (world.instant w - started)
          (claim (seconds_or_max (world.unix_seconds w)) transaction_id store) w in
      let rest =
        rounds fuel site_fingerprint call_id payload transaction_id started (others w' store') w' in
      if returned then (true, store', w') else rest

  -- `handle_atomic_call` on the payload's frame.
  pub handle_frame :
      ℕ
      → (call_id site_fingerprint : Text) → Bytes
      → Outcome WireError Frame
      → CompletionStore
      → W
      → Bool × CompletionStore × W
  unfolding reply_ok
  handle_frame fuel call_id site_fingerprint payload (done frame) store w =
      rounds fuel site_fingerprint call_id payload frame.transaction_id (world.instant w) store w
  handle_frame fuel call_id site_fingerprint payload (failed error) store w = (
    true,
    store,
    reply_ok call_id
        (error_response nil_id 400 (ascii "invalid VHTTP frame: " ++ display.wire error)) w,
  )
  handle_frame fuel call_id site_fingerprint payload panicked store w = (false, store, w)

  -- With at most `fuel` rounds; `true` when it has returned.
  pub handle_atomic_call :
      ℕ
      → (call_id site_fingerprint : Text) → Bytes
      → CompletionStore
      → W
      → Bool × CompletionStore × W
  handle_atomic_call fuel call_id site_fingerprint payload store w =
      handle_frame fuel call_id site_fingerprint payload (decode crates.metadata.from_slice payload)
        store w
