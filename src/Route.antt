-- ===== src/Route.antt =====
-- crates/veilid-http-route/src/lib.rs: route fingerprints, site identifiers and route blobs.
-- The crates blake3, data_encoding (`BASE32_NOPAD`) and base64 are parameters.
mod Tests
use veilid_http.Prelude.{
  ℕ, ◌+◌, ◌*◌, ◌/◌, ◌≤◌, ◌≡◌, refl, ap, ◌∙◌, Bool, true, false, ◌||◌, ◌&&◌, List, [], ◌∷◌, ◌==◌,
  leb, length, take, length-take, min, Result, ok, err, map_err, arith, if◌then◌else◌,
}
use veilid_http.Prelude.Text.{Text, lower_byte, to_ascii_lowercase}
use veilid_http.Wire.Reader.{Bytes}

abbrev pub route_fingerprint_bytes : ℕ
route_fingerprint_bytes = 16

abbrev pub route_fingerprint_len : ℕ
route_fingerprint_len = 26

pub data RouteIdentityError (DecodeError : Type 0) : Type 0 where
  invalid_base64 : DecodeError → RouteIdentityError DecodeError

-- `blake3::hash` and `BASE32_NOPAD.encode`.
module _ (hash : Bytes → Bytes) (encode_base32 : Bytes → Text) where
  pub fingerprint : Bytes → Text
  fingerprint route_blob =
      to_ascii_lowercase (encode_base32 (take route_fingerprint_bytes (hash route_blob)))

-- `value.bytes().all(..)`.
all_site_bytes : Text → Bool
all_site_bytes [] = true
all_site_bytes (byte ∷ value) =
    (leb b'a' byte && leb byte b'z' || leb b'2' byte && leb byte b'7') && all_site_bytes value

pub is_site_id : Text → Bool
unfolding all_site_bytes
is_site_id value = length value == route_fingerprint_len && all_site_bytes value

-- `URL_SAFE_NO_PAD.decode` and `URL_SAFE_NO_PAD.encode`.
module _ {DecodeError : Type 0} (decode_base64 : Text → Result DecodeError Bytes) where
  pub decode_route_blob : Text → Result (RouteIdentityError DecodeError) Bytes
  decode_route_blob value = map_err invalid_base64 (decode_base64 value)

module _ (encode_base64 : Bytes → Text) where
  pub encode_route_blob : Bytes → Text
  encode_route_blob route_blob = encode_base64 route_blob

-- RFC 4648: a digit of the Base32 alphabet.
abbrev pub is_base32 : ℕ → Bool
is_base32 b = leb b'A' b && leb b b'Z' || leb b'2' b && leb b b'7'

abbrev pub all_base32 : Text → Bool
all_base32 [] = true
all_base32 (b ∷ s) = is_base32 b && all_base32 s

-- RFC 4648 without padding: one digit for each 5 bits, the last filled up, all of the alphabet.
pub record EncodesBase32 (encode_base32 : Bytes → Text) : Type 0 where
  pub size : (bytes : Bytes) → length (encode_base32 bytes) ≡ (8 * length bytes + 4) / 5
  pub digits : (bytes : Bytes) → all_base32 (encode_base32 bytes) ≡ true

length-to_ascii_lowercase : (s : Text) → length (to_ascii_lowercase s) ≡ length s
unfolding to_ascii_lowercase
length-to_ascii_lowercase [] = refl
length-to_ascii_lowercase (b ∷ s) = omega (arith, length-to_ascii_lowercase s)

all_site_bytes-to_ascii_lowercase :
    (s : Text) → all_base32 s ≡ true → all_site_bytes (to_ascii_lowercase s) ≡ true
unfolding all_site_bytes to_ascii_lowercase lower_byte
all_site_bytes-to_ascii_lowercase [] h = refl
all_site_bytes-to_ascii_lowercase (b ∷ s) h = ground (arith, all_site_bytes-to_ascii_lowercase s)

-- Where Base32 follows RFC 4648 and the hash has at least 16 bytes (BLAKE3's has 32): the
-- fingerprint of every route blob is a valid site identifier.
pub is_site_id-fingerprint :
    (hash : Bytes → Bytes) (encode_base32 : Bytes → Text) (route_blob : Bytes)
    → EncodesBase32 encode_base32
    → 16 ≤ length (hash route_blob)
    → is_site_id (fingerprint hash encode_base32 route_blob) ≡ true
unfolding is_site_id fingerprint
is_site_id-fingerprint hash encode_base32 route_blob law h =
    let digest = take route_fingerprint_bytes (hash route_blob) in
    rw
      (
        length-to_ascii_lowercase (encode_base32 digest),
        law.size digest,
        length-take 16 (hash route_blob),
        all_site_bytes-to_ascii_lowercase (encode_base32 digest) (law.digits digest),
      )
      (ground arith)
