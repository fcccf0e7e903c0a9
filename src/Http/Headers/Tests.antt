-- ===== src/Http/Headers/Tests.antt =====
-- The translations of headers at concrete fields.
use veilid_http.Prelude.{◌≡◌, refl, List, [], ◌∷◌, All, map, arith}
use veilid_http.Prelude.Text.{Text, ascii, to_ascii_lowercase, split, trim}
use veilid_http.Stream.Types.{HeaderField}
use veilid_http.Http.Headers.{strip_hop_by_hop, connection_tokens, attach_route_headers, keep}
use veilid_http.Http.Headers.Tokens.{
  Written, plain, connection, field_of, IsWritten, values_of-strip_hop_by_hop,
}
use veilid_http.Http.Headers.Fields.{values_of, values_of-attach_route_headers}

abbrev field : Text → Text → HeaderField
field name value = record { name = name; value = value }

abbrev received : List HeaderField
received =
    field (ascii "Connection") (ascii "X-Remove, close")
    ∷ field (ascii "x-remove") (ascii "bad")
    ∷ field (ascii "Accept") (ascii "text/plain")
    ∷ field (ascii "accept") (ascii "*/*")
    ∷ field (ascii "x-veilid-origin") (ascii "veilid://spoofed")
    ∷ []

strip_hop_by_hop_test :
    strip_hop_by_hop received
    ≡ field (ascii "Accept") (ascii "text/plain")
      ∷ field (ascii "accept") (ascii "*/*")
      ∷ field (ascii "x-veilid-origin") (ascii "veilid://spoofed")
      ∷ []
unfolding strip_hop_by_hop keep connection_tokens to_ascii_lowercase split trim
strip_hop_by_hop_test = refl

-- `received` as it was written.
abbrev written : List Written
written =
    connection (ascii "Connection") (record { before = []; token = ascii "X-Remove"; after = [] })
      (record { before = ascii " "; token = ascii "close"; after = [] } ∷ [])
    ∷ plain (field (ascii "x-remove") (ascii "bad"))
    ∷ plain (field (ascii "Accept") (ascii "text/plain"))
    ∷ []

IsWritten-written : All IsWritten written
unfolding to_ascii_lowercase
IsWritten-written = (
  (
    refl,
    (tt, (refl, (refl, (refl, (refl, (refl, (refl, (refl, (refl, tt)))))))), omega arith, tt),
    (((refl, tt), (refl, (refl, (refl, (refl, (refl, tt))))), omega arith, tt), tt),
  ),
  (refl, (refl, tt)),
)

values_of-strip_hop_by_hop_example :
    values_of (ascii "X-Remove") (strip_hop_by_hop (map field_of written)) ≡ []
unfolding to_ascii_lowercase
values_of-strip_hop_by_hop_example =
    values_of-strip_hop_by_hop (ascii "X-Remove") written IsWritten-written

values_of-attach_route_headers_example :
    values_of
      (ascii "X-VEILID-ORIGIN")
      (attach_route_headers received (ascii "real") (ascii "X-Route"))
    ≡ ascii "veilid://real" ∷ []
unfolding to_ascii_lowercase
values_of-attach_route_headers_example =
    values_of-attach_route_headers (ascii "X-VEILID-ORIGIN") (ascii "real") (ascii "X-Route")
      received
