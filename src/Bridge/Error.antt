-- ===== src/Bridge/Error.antt =====
-- The failures of apps/veilid-http-bridge/src/streaming.rs and src/main.rs, which `anyhow` keeps as texts: one
-- constructor for each `bail!` or `anyhow!`, and one for each type of error that `?` passes on.
use veilid_http.Wire.Error.{WireError}
use veilid_http.Wire.Reader.{Outcome, done, failed, panicked}
use veilid_http.Prelude.{Result, ok, err}
use veilid_http.Stream.Error.{StreamProtocolError}
use veilid_http.Engine.Error.{EngineError}
use veilid_http.Http.Error.{HttpTranslationError, AtomicCodecError}
use veilid_http.Transport.{TransportError}

pub data BridgeError : Type 0 where
  wire : WireError → BridgeError
  stream : StreamProtocolError → BridgeError
  engine : EngineError → BridgeError
  http : HttpTranslationError → BridgeError
  codec : AtomicCodecError → BridgeError
  transport : TransportError → BridgeError
  initial_payload_reserved expected_request_open missing_return_route : BridgeError
  invalid_response_window no_request_body upstream_body_closed : BridgeError
  backpressure_failed response_not_open unknown_transaction : BridgeError
  invalid_method invalid_header_name invalid_header_value : BridgeError
  response_not_initialized : BridgeError
  panic : BridgeError

-- `?` on code that may panic; `panic` ends the task that runs it.
abbrev pub outcome {ℓ κ} :
    {E : Type ℓ} {A : Type κ} → (E → BridgeError) → Outcome E A → Result BridgeError A
outcome f (done a) = ok a
outcome f (failed e) = err (f e)
outcome f panicked = err panic
