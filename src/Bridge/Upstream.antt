-- ===== src/Bridge/Upstream.antt =====
-- The request to the upstream in `run_upstream` of apps/veilid-http-bridge/src/streaming.rs, and the
-- header fields of the answer. The HTTP client (reqwest) and its header types are parameters.
use veilid_http.Prelude.{
  Bool, ◌||◌, if◌then◌else◌, Option, none, some, List, [], ◌∷◌, Result, ok, map_err, ok_or, ◌>>=◌,
}
use veilid_http.Prelude.Text.{Text, ascii, eq_ignore_ascii_case}
use veilid_http.Stream.Types.{HeaderField, RequestHead}
use veilid_http.Http.Headers.{attach_route_headers}
use veilid_http.Http.Translation.{Methods, Urls, upstream_url}
use veilid_http.Bridge.Error.{
  BridgeError, http, invalid_method, invalid_header_name, invalid_header_value,
}

-- `if header.name.eq_ignore_ascii_case("host") || .. { continue; }`.
abbrev is_recomputed : HeaderField → Bool
is_recomputed header =
    eq_ignore_ascii_case header.name (ascii "host")
    || eq_ignore_ascii_case header.name (ascii "content-length")

-- `reqwest::header::{HeaderName, HeaderValue}::from_bytes`.
pub record HeaderTypes (Name Value : Type 0) : Type 0 where
  pub name_from_bytes : Text → Option Name
  pub value_from_bytes : Text → Option Value

-- What is given to the HTTP client.
pub record UpstreamRequest (Method Url Name Value : Type 0) : Type 0 where
  pub method : Method
  pub target : Url
  pub headers : List (Name × Value)
  pub has_body : Bool

module _ {Name Value : Type 0} (types : HeaderTypes Name Value) where
  -- The loop over the headers.
  build_headers : List HeaderField → Result BridgeError (List (Name × Value))
  build_headers [] = ok []
  build_headers (header ∷ headers) =
      let rest = build_headers headers in
      if is_recomputed header then rest else (do
        name ← ok_or (types.name_from_bytes header.name) invalid_header_name
        value ← ok_or (types.value_from_bytes header.value) invalid_header_value
        fields ← rest
        ok ((name, value) ∷ fields))

  -- `base` and `route_header` are the configured upstream and header.
  unfoldable pub build_request :
      {Method Url : Type 0}
      → Methods Method
      → Urls Url
      → (base route_header site_fingerprint : Text) → RequestHead
      → Bool
      → Result BridgeError (UpstreamRequest Method Url Name Value)
  unfolding build_headers
  build_request methods urls base route_header site_fingerprint head has_body = do
    target ← map_err http (upstream_url urls base head.path_and_query)
    method ← ok_or (methods.from_bytes head.method) invalid_method
    headers ← build_headers (attach_route_headers head.headers site_fingerprint route_header)
    ok (record { method = method; target = target; headers = headers; has_body = has_body })

-- `value.to_str().ok().map(..)` over the upstream's header fields: those of visible ASCII.
unfoldable pub response_headers : List (Text × Option Text) → List HeaderField
response_headers [] = []
response_headers ((name, none) ∷ fields) = response_headers fields
response_headers ((name, some value) ∷ fields) =
    record { name = name; value = value } ∷ response_headers fields
