-- ===== src/Route/Tests.antt =====
-- Route identities with a Base32 encoder, and a hash that fills its input up to 32 bytes.
use veilid_http.Prelude.{
  ℕ, zero, suc, ◌+◌, ◌-◌, ◌*◌, ◌/◌, ◌%◌, ◌≡◌, refl, true, false, List, [], ◌∷◌, ◌++◌, ltb, length,
  if◌then◌else◌, arith,
}
use veilid_http.Prelude.Text.{Text, ascii, to_ascii_lowercase}
use veilid_http.Wire.Reader.{Bytes}
use veilid_http.Route.{
  fingerprint, is_site_id, all_base32, is_base32, EncodesBase32, is_site_id-fingerprint,
}

abbrev bits : Bytes → List ℕ
bits [] = []
bits (b ∷ s) =
    b / 128 % 2
    ∷ b / 64 % 2
    ∷ b / 32 % 2
    ∷ b / 16 % 2
    ∷ b / 8 % 2
    ∷ b / 4 % 2
    ∷ b / 2 % 2
    ∷ b % 2
    ∷ bits s

abbrev digit : ℕ → ℕ
digit v = if ltb v 26 then b'A' + v else b'2' + (v % 32 - 26)

-- Each digit is of five bits, the last filled up with zeros.
abbrev base32_digits : List ℕ → Text
base32_digits [] = []
base32_digits (a ∷ []) = digit (16 * a) ∷ []
base32_digits (a ∷ b ∷ []) = digit (16 * a + 8 * b) ∷ []
base32_digits (a ∷ b ∷ c ∷ []) = digit (16 * a + 8 * b + 4 * c) ∷ []
base32_digits (a ∷ b ∷ c ∷ d ∷ []) = digit (16 * a + 8 * b + 4 * c + 2 * d) ∷ []
base32_digits (a ∷ b ∷ c ∷ d ∷ e ∷ s) = digit (16 * a + 8 * b + 4 * c + 2 * d + e) ∷ base32_digits s

abbrev base32 : Bytes → Text
base32 s = base32_digits (bits s)

-- The vector of RFC 4648.
base32_test : base32 (ascii "foobar") ≡ ascii "MZXW6YTBOI"
base32_test = refl

length-bits : (s : Bytes) → length (bits s) ≡ 8 * length s
length-bits [] = refl
length-bits (b ∷ s) = omega (arith, length-bits s)

length-base32_digits : (s : List ℕ) → length (base32_digits s) ≡ (length s + 4) / 5
length-base32_digits [] = refl
length-base32_digits (a ∷ []) = refl
length-base32_digits (a ∷ b ∷ []) = refl
length-base32_digits (a ∷ b ∷ c ∷ []) = refl
length-base32_digits (a ∷ b ∷ c ∷ d ∷ []) = refl
length-base32_digits (a ∷ b ∷ c ∷ d ∷ e ∷ s) = omega (arith, length-base32_digits s)

is_base32-digit : (v : ℕ) → is_base32 (digit v) ≡ true
is_base32-digit v = ground arith

all_base32-base32_digits : (s : List ℕ) → all_base32 (base32_digits s) ≡ true
all_base32-base32_digits [] = refl
all_base32-base32_digits (a ∷ []) = rw (is_base32-digit (16 * a)) refl
all_base32-base32_digits (a ∷ b ∷ []) = rw (is_base32-digit (16 * a + 8 * b)) refl
all_base32-base32_digits (a ∷ b ∷ c ∷ []) = rw (is_base32-digit (16 * a + 8 * b + 4 * c)) refl
all_base32-base32_digits (a ∷ b ∷ c ∷ d ∷ []) =
    rw (is_base32-digit (16 * a + 8 * b + 4 * c + 2 * d)) refl
all_base32-base32_digits (a ∷ b ∷ c ∷ d ∷ e ∷ s) =
    rw (is_base32-digit (16 * a + 8 * b + 4 * c + 2 * d + e)) (all_base32-base32_digits s)

base32-EncodesBase32 : EncodesBase32 base32
base32-EncodesBase32 = record {
  size = λ s. omega (arith, length-base32_digits (bits s), length-bits s);
  digits = λ s. all_base32-base32_digits (bits s);
}

abbrev zeros : ℕ → Bytes
zeros zero = []
zeros (suc n) = 0 ∷ zeros n

abbrev padded : Bytes → Bytes
padded s = s ++ zeros 32

fingerprint_test :
    fingerprint padded base32 (ascii "route blob") ≡ ascii "ojxxk5dfebrgy33caaaaaaaaaa"
unfolding fingerprint to_ascii_lowercase
fingerprint_test = refl

site_id_test : is_site_id (ascii "0aaaaaaaaaaaaaaaaaaaaaaaaa") ≡ false
unfolding is_site_id
site_id_test = refl

is_site_id-fingerprint_example : is_site_id (fingerprint padded base32 (ascii "route blob")) ≡ true
is_site_id-fingerprint_example =
    is_site_id-fingerprint padded base32 (ascii "route blob") base32-EncodesBase32 (omega arith)
