-- ===== src/Http/Headers.antt =====
-- `strip_hop_by_hop` and `attach_route_headers` of crates/veilid-http-http/src/lib.rs.
pub mod Fields
pub mod Idempotence
pub mod Tokens
mod Tests
use veilid_http.Prelude.{
  ℕ, Bool, true, false, not, ◌||◌, ◌&&◌, List, [], ◌∷◌, ◌++◌, map, if◌then◌else◌, bytes_eq,
}
use veilid_http.Prelude.Text.{Text, ascii, to_ascii_lowercase, eq_ignore_ascii_case, split, trim}
use veilid_http.Stream.Types.{HeaderField}

-- The fields that are always denied.
abbrev pub hop_by_hop : List Text
hop_by_hop =
    ascii "connection"
    ∷ ascii "keep-alive"
    ∷ ascii "proxy-authenticate"
    ∷ ascii "proxy-authorization"
    ∷ ascii "te"
    ∷ ascii "trailer"
    ∷ ascii "transfer-encoding"
    ∷ ascii "upgrade"
    ∷ []

-- `denied.contains`; the set is a list.
abbrev pub contains : List Text → Text → Bool
contains [] name = false
contains (t ∷ ts) name = bytes_eq t name || contains ts name

-- The tokens that the loop over the headers adds.
unfoldable pub connection_tokens : List HeaderField → List Text
connection_tokens [] = []
connection_tokens (header ∷ headers) =
    let rest = connection_tokens headers in
    if eq_ignore_ascii_case header.name (ascii "connection")
    then map (λ value. to_ascii_lowercase (trim value)) (split b',' header.value) ++ rest
    else rest

abbrev pub denied : List HeaderField → List Text
denied headers = hop_by_hop ++ connection_tokens headers

-- `into_iter().filter(|header| !denied.contains(..))`.
keep : List Text → List HeaderField → List HeaderField
keep tokens [] = []
keep tokens (header ∷ headers) =
    let rest = keep tokens headers in
    if contains tokens (to_ascii_lowercase header.name) then rest else header ∷ rest

unfoldable pub strip_hop_by_hop : List HeaderField → List HeaderField
unfolding keep
strip_hop_by_hop headers = keep (denied headers) headers

abbrev pub origin_header : Text
origin_header = ascii "X-Veilid-Origin"

-- `headers.retain(..)`.
retain : Text → List HeaderField → List HeaderField
retain route_header [] = []
retain route_header (header ∷ headers) =
    let rest = retain route_header headers in
    if not (eq_ignore_ascii_case header.name route_header)
      && not (eq_ignore_ascii_case header.name origin_header)
    then header ∷ rest
    else rest

unfoldable pub attach_route_headers : List HeaderField → Text → Text → List HeaderField
unfolding retain
attach_route_headers headers fingerprint route_header =
    retain route_header headers
    ++ record { name = route_header; value = fingerprint }
      ∷ record { name = origin_header; value = ascii "veilid://" ++ fingerprint }
      ∷ []
