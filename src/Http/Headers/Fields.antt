-- ===== src/Http/Headers/Fields.antt =====
-- What the translations of headers do to the fields of each name.
use veilid_http.Prelude.{
  ◌≡◌, refl, ap, ◌∙◌, ◌||◌, List, [], ◌∷◌, ◌++◌, if◌then◌else◌, bytes_eq_iff, arith,
}
use veilid_http.Prelude.Text.{Text, ascii, to_ascii_lowercase, eq_ignore_ascii_case}
use veilid_http.Stream.Types.{HeaderField}
use veilid_http.Http.Headers.{
  contains, denied, keep, strip_hop_by_hop, origin_header, retain, attach_route_headers,
}

-- The values of the fields with a name, in order; names are compared without case.
abbrev pub values_of : Text → List HeaderField → List Text
values_of name [] = []
values_of name (header ∷ headers) =
    if eq_ignore_ascii_case header.name name
    then header.value ∷ values_of name headers
    else values_of name headers

-- A name is denied or not in any case of its letters.
contains-same : (tokens : List Text) (s t : Text) → s ≡ t → contains tokens s ≡ contains tokens t
contains-same tokens s t e = ap (contains tokens) e

values_of-keep :
    (tokens : List Text) (name : Text) (headers : List HeaderField)
    → values_of name (keep tokens headers)
      ≡ (if contains tokens (to_ascii_lowercase name) then [] else values_of name headers)
unfolding keep
values_of-keep tokens name [] = ground arith
values_of-keep tokens name (header ∷ headers) = ground (
  arith,
  values_of-keep tokens name headers,
  bytes_eq_iff (to_ascii_lowercase header.name) (to_ascii_lowercase name),
  contains-same tokens (to_ascii_lowercase header.name) (to_ascii_lowercase name),
)

-- The fields of the denied names are removed, and the values of every other name kept.
pub values_of-denied :
    (name : Text) (headers : List HeaderField)
    → values_of name (strip_hop_by_hop headers)
      ≡ (if contains (denied headers) (to_ascii_lowercase name) then [] else values_of name headers)
unfolding strip_hop_by_hop
values_of-denied name headers = values_of-keep (denied headers) name headers

abbrev route_values : Text → Text → Text → List Text
route_values name fingerprint route_header =
    (if eq_ignore_ascii_case route_header name then fingerprint ∷ [] else [])
    ++ (if eq_ignore_ascii_case origin_header name
        then (ascii "veilid://" ++ fingerprint) ∷ []
        else [])

values_of-append :
    (name : Text) (xs ys : List HeaderField)
    → values_of name (xs ++ ys) ≡ values_of name xs ++ values_of name ys
values_of-append name [] ys = refl
values_of-append name (x ∷ xs) ys = ground (arith, values_of-append name xs ys)

values_of-retain :
    (name route_header : Text) (headers : List HeaderField)
    → values_of name (retain route_header headers) ≡ (
        if eq_ignore_ascii_case route_header name || eq_ignore_ascii_case origin_header name
        then []
        else values_of name headers)
unfolding retain
values_of-retain name route_header [] = ground arith
values_of-retain name route_header (header ∷ headers) = ground (
  arith,
  values_of-retain name route_header headers,
  bytes_eq_iff (to_ascii_lowercase header.name) (to_ascii_lowercase name),
  bytes_eq_iff (to_ascii_lowercase header.name) (to_ascii_lowercase route_header),
  bytes_eq_iff (to_ascii_lowercase header.name) (to_ascii_lowercase origin_header),
  bytes_eq_iff (to_ascii_lowercase route_header) (to_ascii_lowercase name),
  bytes_eq_iff (to_ascii_lowercase origin_header) (to_ascii_lowercase name),
)

-- Whatever the client sent: under the configured route header and under `X-Veilid-Origin`, in any
-- case, the bridge passes on its own fingerprint and origin only, each once; the values of every
-- other name are kept with their order and repetitions.
pub values_of-attach_route_headers :
    (name fingerprint route_header : Text) (headers : List HeaderField)
    → values_of name (attach_route_headers headers fingerprint route_header)
      ≡ (if eq_ignore_ascii_case route_header name || eq_ignore_ascii_case origin_header name
          then []
          else values_of name headers)
        ++ route_values name fingerprint route_header
unfolding attach_route_headers
values_of-attach_route_headers name fingerprint route_header headers =
    values_of-append name (retain route_header headers) _
    ∙ rw (values_of-retain name route_header headers) (ground arith)
