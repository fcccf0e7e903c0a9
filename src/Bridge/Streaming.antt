-- ===== src/Bridge/Streaming.antt =====
-- The state of apps/veilid-http-bridge/src/streaming.rs: `StreamingConfig`, `ServerTransaction` and
-- `StreamingBridge`, with the steps on them that its handlers share.
--
-- A handler is a composition of functions of the state, as it runs when no other handler runs in
-- between. The bridge's main.rs spawns the openings, so that other handlers can run at a handler's
-- awaits; these lie between the functions that it calls. Spawned tasks are `running` from the start
-- signal to their end; a `JoinHandle` is the task's number.
-- The transport and the body channels are parameters that change the world `W`.
pub mod Opening
pub mod Messages
pub mod Responses
mod Tests
use veilid_http.Prelude.{
  ℕ, ◌+◌, Bool, true, false, not, ◌==◌, if◌then◌else◌, Option, none, some, List, [], ◌∷◌, Result,
  ok, err, map_err,
}
use veilid_http.Prelude.HashMap.{Key, HashMap, get, insert}
use veilid_http.Prelude.Text.{Text}
use veilid_http.Prelude.Words.{u64_max}
use veilid_http.Prelude.Stateful.{Action}
use veilid_http.Wire.Reader.{Bytes}
use veilid_http.Stream.Types.{RequestOpen}
use veilid_http.Stream.Crates.{MessagePack, Blake3, Zstd}
use veilid_http.Engine.Incoming.{InboundBody}
use veilid_http.Engine.Outgoing.{OutboundBody}
use veilid_http.Completion.{CompletionStore}
use veilid_http.Http.Translation.{Methods}
use veilid_http.Transport.{RouteTarget, TransportError}
use veilid_http.Bridge.Error.{BridgeError, transport}

pub record StreamingConfig : Type 0 where
  pub upstream_url : Text
  pub route_header : Text
  pub frame_bytes : ℕ
  pub window_frames : ℕ
  pub max_pending_bytes : ℕ
  pub max_out_of_order_bytes : ℕ
  pub max_request_bytes : ℕ
  pub max_response_bytes : ℕ
  pub overall_timeout : ℕ

pub request_limit : StreamingConfig → ℕ
request_limit c = if c.max_request_bytes == 0 then u64_max else c.max_request_bytes

pub response_limit : StreamingConfig → ℕ
response_limit c = if c.max_response_bytes == 0 then u64_max else c.max_response_bytes

-- `upstream_body` tells whether the sender of the request body is still held; `task` is the number
-- of the task whose handle is held.
pub record ServerTransaction (Hasher Encoder Decoder : Type 0) : Type 0 where
  pub return_target : RouteTarget
  pub accepted_reply : Bytes
  pub request_receiver : Option (InboundBody Hasher Decoder)
  pub upstream_body : Bool
  pub response_sender : Option (OutboundBody Hasher Encoder)
  pub task : Option ℕ

-- A task that runs `run_upstream`, with what it was given.
pub record Task : Type 0 where
  pub handle : ℕ
  pub transaction_id : Key
  pub site_fingerprint : Text
  pub opening : RequestOpen

pub record StreamingBridge (Hasher Encoder Decoder W : Type 0) : Type 0 where
  pub config : StreamingConfig
  pub transactions : HashMap (ServerTransaction Hasher Encoder Decoder)
  pub completion : CompletionStore
  pub next_task : ℕ
  pub running : List Task
  pub world : W

-- The transport, and the sender of a transaction's request body, which fails when the receiver is
-- gone.
pub record Services (W : Type 0) : Type 0 where
  pub import_route : Bytes → Action TransportError W RouteTarget
  pub app_message : RouteTarget → Bytes → Action TransportError W (Unit {0})
  pub app_call_reply : Text → Bytes → Action TransportError W (Unit {0})
  pub send_chunk : Key → Bytes → Action (Unit {0}) W (Unit {0})

-- What the bridge calls of other crates.
pub record BridgeCrates (Method Hasher Encoder Decoder W : Type 0) : Type 0 where
  pub mp : MessagePack
  pub blake3 : Blake3 Hasher
  pub zstd : Zstd Encoder Decoder
  pub methods : Methods Method
  pub services : Services W

module _ {Hasher Encoder Decoder W : Type 0} where
  -- `StreamingBridge::new`.
  pub new : W → CompletionStore → StreamingConfig → StreamingBridge Hasher Encoder Decoder W
  new world completion config = record {
    config = config;
    transactions = [];
    completion = completion;
    next_task = 0;
    running = [];
    world = world;
  }

  -- An action of the world, whose error is turned into the bridge's.
  abbrev pub on_world {ℓ κ} :
      {E : Type ℓ} {A : Type κ}
      → (E → BridgeError)
      → Action E W A
      → Action BridgeError (StreamingBridge Hasher Encoder Decoder W) A
  on_world f m s = let (r, w) = m s.world in (map_err f r, record s { world = w })

  -- A change of one transaction in the table, through its `Arc`.
  pub modify :
      Key
      → (ServerTransaction Hasher Encoder Decoder → ServerTransaction Hasher Encoder Decoder)
      → Action BridgeError (StreamingBridge Hasher Encoder Decoder W) (Unit {0})
  modify id f s = elim (get id s.transactions) [
    | none ↦ (ok tt, s)
    | some transaction ↦
        (ok tt, record s { transactions = insert id (f transaction) s.transactions })
  ]

module _ {Method Hasher Encoder Decoder W : Type 0}
    (crates : BridgeCrates Method Hasher Encoder Decoder W) where
  abbrev pub Bridge : Type 0
  Bridge = StreamingBridge Hasher Encoder Decoder W

  abbrev pub Transaction : Type 0
  Transaction = ServerTransaction Hasher Encoder Decoder

  -- A handler: what it answers, and the bridge as it leaves it.
  abbrev pub BridgeAction {ℓ} : Type ℓ → Type ℓ
  BridgeAction A = Action BridgeError Bridge A

-- `task.abort()` of the task whose handle is held, if one is.
pub abort_task : Option ℕ → List Task → List Task
abort_task none tasks = tasks
abort_task (some handle) [] = []
abort_task (some handle) (task ∷ tasks) =
    let rest = abort_task (some handle) tasks in if task.handle == handle then rest else task ∷ rest
