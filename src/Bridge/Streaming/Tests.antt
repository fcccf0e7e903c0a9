-- ===== src/Bridge/Streaming/Tests.antt =====
-- A bridge with one transaction, over crates that know one opening and a transport that accepts all.
use veilid_http.Prelude.{
  ◌≡◌, refl, Bool, true, false, not, ◌&&◌, ◌==◌, none, some, List, [], ◌∷◌, ◌++◌, ok, err, arith,
  bytes_eq, bytes_eq_iff,
}
use veilid_http.Prelude.HashMap.{Key}
use veilid_http.Prelude.Text.{Text, ascii}
use veilid_http.Wire.Reader.{Bytes, done}
use veilid_http.Wire.Frame.{encode, encode_with_limit}
use veilid_http.Wire.FrameType.{to_u8}
use veilid_http.Stream.Types.{
  RequestOpen, RequestAccepted, RequestHead, HeaderField, request_open, CompressionMode, zstd,
  uncompressed,
}
use veilid_http.Stream.Crates.{Codec, MessagePack}
use veilid_http.Stream.Codec.{decode, encode_request_open, extension_frame}
use veilid_http.Stream.Codec.RoundTrip.{Restores, Lawful, decode-encode_frame}
use veilid_http.Stream.Sample.{
  sample_mp, sample-Lawful, sample_hash, sample_zstd, only, only-Restores, one_extension,
  one_extension-Restores,
}
use veilid_http.Completion.{CompletionStore, in_flight, transaction_notify}
use veilid_http.Bridge.Streaming.{StreamingConfig, Task, Services, BridgeCrates, Bridge, new}
use veilid_http.Bridge.Streaming.Opening.{handle_open}
use veilid_http.Bridge.Streaming.Opening.Duplicate.{SameExecutions, handle_open-end_task}
use veilid_http.Bridge.Streaming.Messages.{leave_table, report_failure, end_task}

abbrev get_items : RequestHead
get_items = record { method = ascii "GET"; path_and_query = ascii "/items"; headers = [] }

abbrev opening : RequestOpen
opening = record {
  head = get_items;
  return_route_blob = 5 ∷ [];
  request_compression = zstd;
  request_body = false;
  response_receive_window = 32;
}

abbrev no_headers : List HeaderField → Bool
no_headers [] = true
no_headers (h ∷ hs) = false

no_headers-nil : (headers : List HeaderField) → no_headers headers ≡ true → [] ≡ headers
no_headers-nil [] e = refl
no_headers-nil (h ∷ hs) e = absurd (ground arith)

abbrev is_zstd : CompressionMode → Bool
is_zstd zstd = true
is_zstd uncompressed = false

is_zstd-eq : (mode : CompressionMode) → is_zstd mode ≡ true → zstd ≡ mode
is_zstd-eq zstd e = refl
is_zstd-eq uncompressed e = absurd (ground arith)

abbrev same_opening : RequestOpen → Bool
same_opening o =
    bytes_eq o.head.method (ascii "GET")
    && (bytes_eq o.head.path_and_query (ascii "/items")
        && (no_headers o.head.headers
            && (bytes_eq o.return_route_blob (5 ∷ [])
                && (is_zstd o.request_compression
                    && (not o.request_body && o.response_receive_window == 32)))))

same_opening-eq : (o : RequestOpen) → same_opening o ≡ true → opening ≡ o
same_opening-eq o e = ground (
  arith,
  bytes_eq_iff o.head.method (ascii "GET"),
  bytes_eq_iff o.head.path_and_query (ascii "/items"),
  no_headers-nil o.head.headers,
  bytes_eq_iff o.return_route_blob (5 ∷ []),
  is_zstd-eq o.request_compression,
)

abbrev accepted_codec : Codec RequestAccepted
accepted_codec = record {
  to_vec_named = λ v. ok (v.request_receive_window ∷ []);
  from_slice =
      λ s. elim s [ [] ↦ err "empty" | w ∷ rest ↦ ok (record { request_receive_window = w }) ];
}

accepted_codec-Restores : Restores accepted_codec
accepted_codec-Restores v bytes e = ground arith

abbrev mp : MessagePack
mp = record sample_mp {
  metadata = one_extension;
  request_open = only opening same_opening;
  request_accepted = accepted_codec;
}

mp-Lawful : Lawful mp
mp-Lawful = record {
  metadata = one_extension-Restores;
  request_open = only-Restores opening same_opening same_opening-eq;
  request_accepted = accepted_codec-Restores;
  response_open = sample-Lawful.response_open;
  stream_end = sample-Lawful.stream_end;
  ack = sample-Lawful.ack;
  cancel = sample-Lawful.cancel;
  stream_error = sample-Lawful.stream_error;
}

-- The world is the list of the messages and replies that have been sent.
abbrev services : Services (List Bytes)
services = record {
  import_route = λ blob w. (ok blob, w);
  app_message = λ target payload w. (ok tt, w ++ payload ∷ []);
  app_call_reply = λ call_id payload w. (ok tt, w ++ payload ∷ []);
  send_chunk = λ id chunk w. (ok tt, w ++ chunk ∷ []);
}

abbrev crates : BridgeCrates Text Bytes Bytes Bytes (List Bytes)
crates = record {
  mp = mp;
  blake3 = sample_hash;
  zstd = sample_zstd;
  methods = record { from_bytes = λ t. some t; is_connect = λ t. bytes_eq t (ascii "CONNECT") };
  services = services;
}

abbrev config : StreamingConfig
config = record {
  upstream_url = ascii "http://proxy:8080";
  route_header = ascii "X-Veilid-Route-Fingerprint";
  frame_bytes = 30720;
  window_frames = 32;
  max_pending_bytes = 8388608;
  max_out_of_order_bytes = 4194304;
  max_request_bytes = 0;
  max_response_bytes = 0;
  overall_timeout = 3600;
}

abbrev store : CompletionStore
store = record {
  retention = 900;
  max_response_bytes = 1048576;
  max_completed_entries = 4096;
  max_in_flight = 128;
  entries = [];
  files = [];
}

abbrev start : Bridge crates
start = new [] store config

abbrev id : Key
id = 9 ∷ 9 ∷ 9 ∷ 9 ∷ 9 ∷ 9 ∷ 9 ∷ 9 ∷ 9 ∷ 9 ∷ 9 ∷ 9 ∷ 9 ∷ 9 ∷ 9 ∷ 9 ∷ []

abbrev opening_bytes : Bytes
opening_bytes =
    b'V'
    ∷ b'H'
    ∷ b'T'
    ∷ b'P'
    ∷ 1
    ∷ 2
    ∷ 0
    ∷ 0
    ∷ 9
    ∷ 9
    ∷ 9
    ∷ 9
    ∷ 9
    ∷ 9
    ∷ 9
    ∷ 9
    ∷ 9
    ∷ 9
    ∷ 9
    ∷ 9
    ∷ 9
    ∷ 9
    ∷ 9
    ∷ 9
    ∷ 0
    ∷ 0
    ∷ 0
    ∷ 0
    ∷ 0
    ∷ 0
    ∷ 0
    ∷ 0
    ∷ 0
    ∷ 32
    ∷ 0
    ∷ 0
    ∷ 0
    ∷ 0
    ∷ 0
    ∷ 0
    ∷ 30
    ∷ (ascii "org.veilidhttp.request-open/v1" ++ 1 ∷ [])

opening_decodes : decode mp opening_bytes ≡ done (request_open id opening [])
unfolding encode_request_open extension_frame encode encode_with_limit to_u8
opening_decodes =
    decode-encode_frame mp mp-Lawful (request_open id opening []) opening_bytes refl refl

abbrev after_opening : Bridge crates
after_opening = (handle_open crates 100 (ascii "call") (ascii "site") opening_bytes start).1

abbrev task : Task
task = record {
  handle = 0;
  transaction_id = id;
  site_fingerprint = ascii "site";
  opening = opening;
}

-- The transaction while its task runs.
abbrev executing : Bridge crates
executing = record start {
  completion = record store { entries = (id, in_flight (transaction_notify id)) ∷ [] };
}

opened_again : Bridge crates → Bridge crates
opened_again s = (handle_open crates 260 (ascii "call") (ascii "site") opening_bytes s).1

-- The second opening, a minute after the task's end or during it.
handle_open-end_task_example :
    let left = leave_table crates id executing in
    let reported = report_failure crates (5 ∷ []) id none left in
    let over = end_task crates 200 task (5 ∷ []) none executing in
    SameExecutions crates left (opened_again left)
    × SameExecutions crates reported (opened_again reported)
    × SameExecutions crates over (opened_again over)
unfolding new opened_again
handle_open-end_task_example =
    handle_open-end_task crates 200 260 task (5 ∷ []) none (ascii "call") (ascii "site")
      opening_bytes opening (transaction_notify id) executing tt (refl, tt) refl opening_decodes
      (omega arith)
