-- ===== src/Http/Headers/Idempotence.antt =====
-- Stripping stripped headers changes nothing.
use veilid_http.Prelude.{◌≡◌, refl, ap, true, ◌||◌, List, [], ◌∷◌, ◌++◌, bytes_eq_iff, arith}
use veilid_http.Prelude.Text.{Text, ascii, to_ascii_lowercase}
use veilid_http.Stream.Types.{HeaderField}
use veilid_http.Http.Headers.{
  hop_by_hop, contains, connection_tokens, denied, keep, strip_hop_by_hop,
}

pub contains-append :
    (xs ys : List Text) (name : Text)
    → contains (xs ++ ys) name ≡ contains xs name || contains ys name
contains-append [] ys name = refl
contains-append (x ∷ xs) ys name = ground (arith, contains-append xs ys name)

contains-same : (tokens : List Text) (s t : Text) → s ≡ t → contains tokens s ≡ contains tokens t
contains-same tokens s t e = ap (contains tokens) e

-- No `Connection` field is left where that name is denied.
connection_tokens-keep :
    (tokens : List Text) (headers : List HeaderField)
    → contains tokens (ascii "connection") ≡ true
    → connection_tokens (keep tokens headers) ≡ []
unfolding connection_tokens keep to_ascii_lowercase
connection_tokens-keep tokens [] h = refl
connection_tokens-keep tokens (header ∷ headers) h = ground (
  arith,
  connection_tokens-keep tokens headers h,
  bytes_eq_iff (to_ascii_lowercase header.name) (ascii "connection"),
  contains-same tokens (to_ascii_lowercase header.name) (ascii "connection"),
)

keep-keep :
    (some_tokens tokens : List Text) (headers : List HeaderField)
    → ((name : Text) → contains some_tokens name ≡ true → contains tokens name ≡ true)
    → keep some_tokens (keep tokens headers) ≡ keep tokens headers
unfolding keep
keep-keep some_tokens tokens [] h = refl
keep-keep some_tokens tokens (header ∷ headers) h =
    ground (arith, keep-keep some_tokens tokens headers h, h (to_ascii_lowercase header.name))

pub strip_hop_by_hop_idem :
    (headers : List HeaderField)
    → strip_hop_by_hop (strip_hop_by_hop headers) ≡ strip_hop_by_hop headers
unfolding strip_hop_by_hop
strip_hop_by_hop_idem headers =
    rw (connection_tokens-keep (denied headers) headers refl)
      (keep-keep hop_by_hop (denied headers) headers more)
  where
    more : (name : Text) → contains hop_by_hop name ≡ true → contains (denied headers) name ≡ true
    more name h = ground (arith, contains-append hop_by_hop (connection_tokens headers) name)
