-- ===== src/Http/Atomic/Tests.antt =====
-- The atomic codec over crates that know the values of one request and one response.
use veilid_http.Prelude.{
  ℕ, ◌≡◌, refl, Bool, true, false, ◌&&◌, List, [], ◌∷◌, ◌==◌, bytes_eq, bytes_eq_iff, take, some,
  ok, arith,
}
use veilid_http.Prelude.HashMap.{Key, HashMap}
use veilid_http.Prelude.Text.{Text, ascii, to_ascii_lowercase, to_decimal}
use veilid_http.Core.Compression.{stream_digest, compress}
use veilid_http.Wire.Reader.{Bytes, done, failed}
use veilid_http.Wire.FrameType.{to_u8}
use veilid_http.Wire.Frame.{encode}
use veilid_http.Wire.Metadata.{Metadata}
use veilid_http.Stream.Types.{RequestHead, ResponseHead, HeaderField}
use veilid_http.Stream.Sample.{only, only-Restores}
use veilid_http.Http.Error.{unexpected_frame}
use veilid_http.Http.Headers.{strip_hop_by_hop, connection_tokens}
use veilid_http.Http.Translation.{normalize_request}
use veilid_http.Http.Atomic.{
  AtomicCrates, encode_atomic_request, decode_atomic_request, request_head_extension,
  response_head_extension, encode_atomic_response, decode_atomic_response,
}
use veilid_http.Http.Atomic.RoundTrip.{
  Lawful, decode_atomic_request-encode_atomic_request,
  decode_atomic_response-encode_atomic_response,
}

abbrev id : Key
id = 9 ∷ 9 ∷ 9 ∷ 9 ∷ 9 ∷ 9 ∷ 9 ∷ 9 ∷ 9 ∷ 9 ∷ 9 ∷ 9 ∷ 9 ∷ 9 ∷ 9 ∷ 9 ∷ []

abbrev body : Bytes
body = 0 ∷ 1 ∷ 2 ∷ 255 ∷ 0 ∷ []

abbrev keep_alive : HeaderField
keep_alive = record { name = ascii "Keep-Alive"; value = ascii "timeout=5" }

abbrev request_with : List HeaderField → RequestHead
request_with headers = record {
  method = ascii "POST";
  path_and_query = ascii "/api/items?q=1";
  headers = headers;
}

abbrev response_with : List HeaderField → ResponseHead
response_with headers = record { status = 200; headers = headers }

abbrev no_headers : List HeaderField → Bool
no_headers [] = true
no_headers (h ∷ hs) = false

no_headers-nil : (headers : List HeaderField) → no_headers headers ≡ true → [] ≡ headers
no_headers-nil [] e = refl
no_headers-nil (h ∷ hs) e = absurd (ground arith)

abbrev same_request : RequestHead → Bool
same_request head =
    bytes_eq head.method (ascii "POST")
    && (bytes_eq head.path_and_query (ascii "/api/items?q=1") && no_headers head.headers)

same_request-eq : (head : RequestHead) → same_request head ≡ true → request_with [] ≡ head
same_request-eq head e = ground (
  arith,
  bytes_eq_iff head.method (ascii "POST"),
  bytes_eq_iff head.path_and_query (ascii "/api/items?q=1"),
  no_headers-nil head.headers,
)

abbrev same_response : ResponseHead → Bool
same_response head = head.status == 200 && no_headers head.headers

same_response-eq : (head : ResponseHead) → same_response head ≡ true → response_with [] ≡ head
same_response-eq head e = ground (arith, no_headers-nil head.headers)

abbrev maps_eq : HashMap Text → HashMap Text → Bool
maps_eq [] [] = true
maps_eq [] (e ∷ m) = false
maps_eq (e ∷ m) [] = false
maps_eq ((k, v) ∷ m) ((j, w) ∷ n) = bytes_eq k j && (bytes_eq v w && maps_eq m n)

maps_eq-eq : (m n : HashMap Text) → maps_eq m n ≡ true → m ≡ n
maps_eq-eq [] [] e = refl
maps_eq-eq [] (x ∷ n) e = absurd (ground arith)
maps_eq-eq (x ∷ m) [] e = absurd (ground arith)
maps_eq-eq ((k, v) ∷ m) ((j, w) ∷ n) e =
    ground (arith, bytes_eq_iff k j, bytes_eq_iff v w, maps_eq-eq m n)

abbrev same_metadata : Metadata → Metadata → Bool
same_metadata a b =
    maps_eq a.http b.http && (maps_eq a.vhttp b.vhttp && maps_eq a.extensions b.extensions)

same_metadata-eq : (a b : Metadata) → same_metadata a b ≡ true → a ≡ b
same_metadata-eq a b e = ground (
  arith,
  maps_eq-eq a.http b.http,
  maps_eq-eq a.vhttp b.vhttp,
  maps_eq-eq a.extensions b.extensions,
)

-- Methods are their tokens, the hash and Base64 keep the bytes and zstd stores them.
abbrev crates : Metadata → AtomicCrates Text Bytes
crates metadata = record {
  methods = record { from_bytes = λ t. some t; is_connect = λ t. bytes_eq t (ascii "CONNECT") };
  metadata = only metadata (same_metadata metadata);
  request_head = only (request_with []) same_request;
  response_head = only (response_with []) same_response;
  hash = λ bytes. bytes;
  encode_base64 = λ bytes. bytes;
  decode_base64 = λ text. some text;
  encode_all = λ bytes level. ok bytes;
  new_decoder = λ bytes. ok bytes;
  read_limited = λ bytes n. ok (take n bytes);
}

crates-Lawful : (metadata : Metadata) → Lawful (crates metadata)
crates-Lawful metadata = record {
  metadata = only-Restores metadata (same_metadata metadata) (same_metadata-eq metadata);
  request_head = only-Restores (request_with []) same_request same_request-eq;
  response_head = only-Restores (response_with []) same_response same_response-eq;
  zstd = λ original compressed level e. (original, cc, λ n. refl);
  base64 = λ bytes. refl;
}

abbrev entries : Text → Key → Metadata
entries mode name = record {
  http = [];
  vhttp =
      (ascii "compression", mode)
      ∷ (ascii "logical-length", ascii "5")
      ∷ (ascii "blake3", body)
      ∷ [];
  extensions = (name, 1 ∷ []) ∷ [];
}

abbrev for_request : AtomicCrates Text Bytes
for_request = crates (entries (ascii "zstd") request_head_extension)

abbrev for_response : AtomicCrates Text Bytes
for_response = crates (entries (ascii "none") response_head_extension)

-- The frame of 24 bytes of fixed fields that the identifier splits, one byte of metadata and the body.
abbrev frame_bytes : ℕ → Bytes
frame_bytes t =
    b'V' ∷ b'H' ∷ b'T' ∷ b'P' ∷ 1 ∷ t ∷ 0 ∷ 0 ∷ 9 ∷ 9 ∷ 9 ∷ 9 ∷ 9 ∷ 9 ∷ 9 ∷ 9 ∷ 9 ∷ 9 ∷ 9 ∷ 9 ∷ 9
    ∷ 9 ∷ 9 ∷ 9 ∷ 0 ∷ 0 ∷ 0 ∷ 0 ∷ 0 ∷ 0 ∷ 0 ∷ 0 ∷ 0 ∷ 1 ∷ 0 ∷ 0 ∷ 0 ∷ 0 ∷ 0 ∷ 5 ∷ 1 ∷ body

decode_atomic_request-encode_atomic_request_example :
    decode_atomic_request for_request (frame_bytes 2) 1024
    ≡ done (record { transaction_id = id; head = request_with []; body = body })
unfolding to_ascii_lowercase connection_tokens strip_hop_by_hop normalize_request compress
    stream_digest to_decimal to_u8 encode encode_atomic_request
decode_atomic_request-encode_atomic_request_example =
    decode_atomic_request-encode_atomic_request for_request
      (crates-Lawful (entries (ascii "zstd") request_head_extension)) id
      (request_with (keep_alive ∷ [])) (request_with []) body (frame_bytes 2) true 1024 refl
      (omega arith) (omega arith) refl refl

decode_atomic_response-encode_atomic_response_example :
    decode_atomic_response for_response (frame_bytes 9) (8 ∷ []) 1024 ≡ failed unexpected_frame
unfolding to_ascii_lowercase connection_tokens strip_hop_by_hop stream_digest to_decimal to_u8
    encode encode_atomic_response
decode_atomic_response-encode_atomic_response_example =
    decode_atomic_response-encode_atomic_response for_response
      (crates-Lawful (entries (ascii "none") response_head_extension)) id (8 ∷ [])
      (response_with (keep_alive ∷ [])) body (frame_bytes 9) false 1024 refl (omega arith)
      (omega arith) refl
