-- ===== src/Transport.antt =====
-- crates/veilid-http-transport/src/lib.rs: the types of the Veilid contract. Texts are UTF-8 bytes.
use veilid_http.Prelude.{Bool, Option}
use veilid_http.Prelude.Text.{Text}
use veilid_http.Wire.Reader.{Bytes}

-- `RouteTarget(String)`.
abbrev pub RouteTarget : Type 0
RouteTarget = Text

pub data TransportEvent : Type 0 where
  app_message : (route : Option RouteTarget) (payload : Bytes) → TransportEvent
  app_call : (call_id : Text) (route : Option RouteTarget) (payload : Bytes) → TransportEvent
  route_changed : (route : RouteTarget) (dead : Bool) → TransportEvent
  shutdown : TransportEvent

pub data TransportError : Type 0 where
  retryable : Text → TransportError
  timeout : TransportError
  invalid_target : Text → TransportError
  shutdown : TransportError
  fatal : Text → TransportError
