-- ===== src/Bridge/Atomic/Calls/Tests.antt =====
-- Calls over crates that store what they are given, with one upstream answer and one clock.
use veilid_http.Prelude.{
  ℕ, zero, suc, Bool, ◌+◌, ◌≡◌, refl, true, false, List, [], ◌∷◌, ◌++◌, some, ok, err, bytes_eq,
  take, arith,
}
use veilid_http.Prelude.HashMap.{Key}
use veilid_http.Prelude.Text.{Text, ascii, parse_usize, to_ascii_lowercase, to_decimal}
use veilid_http.Core.Compression.{compress, decompress_bounded, stream_digest}
use veilid_http.Wire.Reader.{Bytes, get_bytes, get_u8, get_u16, get_u32}
use veilid_http.Wire.FrameType.{to_u8, try_from}
use veilid_http.Wire.Metadata.{Metadata}
use veilid_http.Wire.Frame.{encode, decode}
use veilid_http.Stream.Types.{RequestHead}
use veilid_http.Http.Headers.{strip_hop_by_hop, connection_tokens, attach_route_headers}
use veilid_http.Http.Translation.{Urls, normalize_request, upstream_url}
use veilid_http.Http.Atomic.{
  AtomicCrates, request_head_extension, decode_atomic_request, encode_atomic_response,
}
use veilid_http.Completion.{CompletionStore, transaction_notify, in_flight}
use veilid_http.Bridge.Upstream.{HeaderTypes, UpstreamRequest, build_request, response_headers}
use veilid_http.Bridge.Config.{Config}
use veilid_http.Bridge.Atomic.{Display, World, Answer, forward_atomic, read_body, relay}
use veilid_http.Bridge.Atomic.Calls.{handle_atomic_call}
use veilid_http.Bridge.Atomic.Calls.Waiting.{Timed, handle_atomic_call-returns}

abbrev id : Key
id = 9 ∷ 9 ∷ 9 ∷ 9 ∷ 9 ∷ 9 ∷ 9 ∷ 9 ∷ 9 ∷ 9 ∷ 9 ∷ 9 ∷ 9 ∷ 9 ∷ 9 ∷ 9 ∷ []

abbrev get_items : RequestHead
get_items = record { method = ascii "GET"; path_and_query = ascii "/items"; headers = [] }

abbrev request_metadata : Metadata
request_metadata = record {
  http = [];
  vhttp =
      (ascii "compression", ascii "none")
      ∷ (ascii "logical-length", ascii "0")
      ∷ (ascii "blake3", [])
      ∷ [];
  extensions = (request_head_extension, 1 ∷ []) ∷ [];
}

-- Methods are their tokens, MessagePack knows one request, and zstd stores the bytes.
abbrev crates : AtomicCrates Text Bytes
crates = record {
  methods = record { from_bytes = λ t. some t; is_connect = λ t. bytes_eq t (ascii "CONNECT") };
  metadata = record { to_vec_named = λ m. ok (2 ∷ []); from_slice = λ s. ok request_metadata };
  request_head = record { to_vec_named = λ m. ok (1 ∷ []); from_slice = λ s. ok get_items };
  response_head = record { to_vec_named = λ m. ok (3 ∷ []); from_slice = λ s. err "unknown" };
  hash = λ bytes. bytes;
  encode_base64 = λ bytes. bytes;
  decode_base64 = λ text. some text;
  encode_all = λ bytes level. ok bytes;
  new_decoder = λ bytes. ok bytes;
  read_limited = λ bytes n. ok (take n bytes);
}

abbrev http_urls : Urls Text
http_urls = record {
  parse = λ s. some s;
  scheme = λ u. ascii "http";
  cannot_be_a_base = λ u. false;
  set_path = λ u path. u ++ path;
  set_query = λ u query. u;
  join = λ u reference. some (u ++ reference);
}

abbrev types : HeaderTypes Text Text
types = record { name_from_bytes = λ s. some s; value_from_bytes = λ s. some s }

abbrev display : Display
display = record {
  wire = λ e. ascii "wire";
  codec = λ e. ascii "codec";
  bridge = λ e. ascii "bridge";
}

abbrev config : Config
config = record {
  upstream_url = ascii "http://localhost";
  overall_timeout = 1;
  frame_bytes = 30720;
  send_window_frames = 32;
  route_header = ascii "X-Veilid-Route";
  max_atomic_body_bytes = 65536;
  max_request_bytes = 65536;
  max_response_bytes = 65536;
  max_pending_bytes = 1048576;
  max_out_of_order_bytes = 65536;
  completed_retention = 600;
  completed_response_bytes = 65536;
  completed_max_entries = 16;
}

-- The store's clock, the monotonic clock, the stored permits and the replies, the last first.
abbrev State : Type 0
State = ℕ × ℕ × ℕ × List (Text × Bytes)

abbrev answer : Answer
answer = record { status = 200; headers = []; chunks = ok (b'h' ∷ []) ∷ ok (b'i' ∷ []) ∷ [] }

-- A permit ends a sleep at once.
abbrev timeout : ℕ → State → Bool × State
timeout d (s, t, zero, replies) = (false, (s, t + d, zero, replies))
timeout d (s, t, suc permits, replies) = (true, (s, t, permits, replies))

abbrev permits : State → ℕ
permits (s, t, k, replies) = k

abbrev world : World (UpstreamRequest Text Text Text Text) State
world = record {
  send = λ request body (s, t, permits, replies). (ok answer, (s + 1, t + 1000, permits, replies));
  app_call_reply =
      λ call_id response (s, t, permits, replies). (s, t, permits, (call_id, response) ∷ replies);
  unix_seconds = λ (s, t, permits, replies). some s;
  instant = λ (s, t, permits, replies). t;
  wake = λ woken w. w;
  sleep = λ notify d w. timeout d w;
}

abbrev alone : State → CompletionStore → CompletionStore
alone w store = store

timeout-Timed :
    (d : ℕ) (v : State)
    → Timed crates http_urls types display world config alone permits d v (timeout d v)
timeout-Timed d (s, t, zero, replies) = (omega arith, omega arith)
timeout-Timed d (s, t, suc k, replies) = (omega arith, omega arith)

abbrev executing : CompletionStore
executing = record {
  retention = 60;
  max_response_bytes = 1024;
  max_completed_entries = 16;
  max_in_flight = 8;
  entries = (id, in_flight (transaction_notify id)) ∷ [];
  files = [];
}

abbrev frame_head : ℕ → Bytes
frame_head t =
    b'V' ∷ b'H' ∷ b'T' ∷ b'P' ∷ 1 ∷ t ∷ 0 ∷ 0 ∷ 9 ∷ 9 ∷ 9 ∷ 9 ∷ 9 ∷ 9 ∷ 9 ∷ 9 ∷ 9 ∷ 9 ∷ 9 ∷ 9 ∷ 9
    ∷ 9 ∷ 9 ∷ 9 ∷ 0 ∷ 0 ∷ 0 ∷ 0 ∷ 0 ∷ 0 ∷ 0 ∷ 0 ∷ 0 ∷ 1 ∷ 0 ∷ 0 ∷ 0 ∷ 0 ∷ []

abbrev request : Bytes
request = frame_head 2 ++ 0 ∷ 0 ∷ 1 ∷ []

abbrev response : Bytes
response = frame_head 9 ++ 0 ∷ 2 ∷ 2 ∷ b'h' ∷ b'i' ∷ []

forwarded :
    forward_atomic crates http_urls types display world config (ascii "site") request (10, 0, 0, [])
    ≡ (ok response, (11, 1000, 0, []))
unfolding forward_atomic decode_atomic_request encode_atomic_response build_request response_headers
    upstream_url attach_route_headers strip_hop_by_hop connection_tokens normalize_request
    to_ascii_lowercase read_body compress decompress_bounded stream_digest to_decimal to_u8 try_from
    encode decode get_bytes get_u8 get_u16 get_u32 parse_usize relay
forwarded = refl

-- Two permits end the first two sleeps.
handle_atomic_call-returns_example :
    (handle_atomic_call crates http_urls types display world config alone 23
      (ascii "call")
      (ascii "site")
      request
      executing
      (10, 0, 2, [])).0
    ≡ true
handle_atomic_call-returns_example =
    handle_atomic_call-returns crates http_urls types display world config alone permits 22
      (ascii "call") (ascii "site") request executing (10, 0, 2, []) (λ n d v. timeout-Timed d v)
      (omega arith)
