-- ===== src/Prelude/Text.antt =====
-- `str` as its UTF-8 bytes: the methods of Rust's standard library that the source uses.
pub mod Trim
use Prim.Native.Char.{code}
use Prim.Native.String.{String}
use Prim.Native.Nat.{ℕ, zero, suc, ◌+◌, ◌-◌, ◌*◌, ◌/◌, ◌%◌, ◌≤◌, ◌<◌}
use mathlib.Core.Path.{◌≡◌, refl, sym, ap, ◌∙◌}
use mathlib.Core.Logic.{inl, inr}
use mathlib.Core.Bool.{Bool, true, false, ◌&&◌, ◌||◌}
use mathlib.Core.Option.{Option, none, some}
use mathlib.Core.List.{List, [], ◌∷◌, reverse}
use native.Mathlib.Omega.{arith}
use veilid_http.Prelude.Tests.{ltb, leb, ◌==◌, if◌then◌else◌, bytes_eq, Bool-cases}
use veilid_http.Prelude.Lists.{length}
use veilid_http.Prelude.Words.{usize_max}

abbrev pub Text : Type 0
Text = List ℕ

-- The bytes of a literal, which are ASCII.
abbrev pub ascii : String → Text
ascii String.[] = []
ascii (String.◌∷◌ c s) = code c ∷ ascii s

unfoldable pub lower_byte : ℕ → ℕ
lower_byte b = if leb b'A' b && leb b b'Z' then b + 32 else b

unfoldable pub to_ascii_lowercase : Text → Text
unfolding lower_byte
to_ascii_lowercase [] = []
to_ascii_lowercase (b ∷ s) = lower_byte b ∷ to_ascii_lowercase s

abbrev pub eq_ignore_ascii_case : Text → Text → Bool
eq_ignore_ascii_case s t = bytes_eq (to_ascii_lowercase s) (to_ascii_lowercase t)

abbrev pub starts_with : Text → Text → Bool
starts_with s [] = true
starts_with [] (p ∷ ps) = false
starts_with (b ∷ s) (p ∷ ps) = b == p && starts_with s ps

abbrev to_first : ℕ → List Text → List Text
to_first b [] = (b ∷ []) ∷ []
to_first b (word ∷ words) = (b ∷ word) ∷ words

-- `split` at an ASCII character.
unfoldable pub split : ℕ → Text → List Text
split separator [] = [] ∷ []
split separator (b ∷ s) =
    let rest = split separator s in if b == separator then [] ∷ rest else to_first b rest

-- The code points with the property `White_Space`, of one, two and three bytes.
abbrev is_space1 : ℕ → Bool
is_space1 a = leb 9 a && leb a 13 || a == 32

abbrev is_space2 : ℕ → ℕ → Bool
is_space2 a b = a == 0xC2 && (b == 0x85 || b == 0xA0)

abbrev is_space3 : ℕ → ℕ → ℕ → Bool
is_space3 a b c =
    a == 0xE1 && (b == 0x9A && c == 0x80)
    || (a == 0xE2
        && (b == 0x80 && (leb 0x80 c && leb c 0x8A || c == 0xA8 || c == 0xA9 || c == 0xAF)
            || b == 0x81 && c == 0x9F))
    || a == 0xE3 && (b == 0x80 && c == 0x80)

-- What follows one such character at the front, or at the back of the reversed text.
skip_front : Text → Option Text
skip_front [] = none
skip_front (a ∷ []) = if is_space1 a then some [] else none
skip_front (a ∷ b ∷ []) =
    if is_space1 a then some (b ∷ []) else if is_space2 a b then some [] else none
skip_front (a ∷ b ∷ c ∷ s) =
    if is_space1 a
    then some (b ∷ c ∷ s)
    else if is_space2 a b
    then some (c ∷ s)
    else if is_space3 a b c
    then some s
    else none

skip_back : Text → Option Text
skip_back [] = none
skip_back (a ∷ []) = if is_space1 a then some [] else none
skip_back (a ∷ b ∷ []) =
    if is_space1 a then some (b ∷ []) else if is_space2 b a then some [] else none
skip_back (a ∷ b ∷ c ∷ s) =
    if is_space1 a
    then some (b ∷ c ∷ s)
    else if is_space2 b a
    then some (c ∷ s)
    else if is_space3 c b a
    then some s
    else none

-- Each round takes a byte at least, so the length is enough fuel.
skip_all : (Text → Option Text) → ℕ → Text → Text
skip_all skip zero s = s
skip_all skip (suc fuel) s = elim (skip s) [ none ↦ s | some s' ↦ skip_all skip fuel s' ]

unfoldable pub trim : Text → Text
unfolding skip_front skip_back skip_all
trim s =
    let front = skip_all skip_front (length s) s in
    reverse (skip_all skip_back (length front) (reverse front))

-- `usize::to_string`: each round divides by ten, so `n + 1` is enough fuel.
digits : ℕ → ℕ → Text → Text
digits zero n acc = acc
digits (suc fuel) n acc = elim (ltb n 10) [
  | true ↦ (b'0' + n) ∷ acc
  | false ↦ digits fuel (n / 10) ((b'0' + n % 10) ∷ acc)
]

unfoldable pub to_decimal : ℕ → Text
unfolding digits
to_decimal n = digits (n + 1) n []

parse_digits : ℕ → Text → Option ℕ
parse_digits acc [] = some acc
parse_digits acc (c ∷ s) =
    let next = acc * 10 + (c - b'0') in
    let rest = parse_digits next s in
    if leb b'0' c && leb c b'9' && leb next usize_max then rest else none

-- `parse::<usize>`: an optional `+` and at least one digit, without overflow.
unfoldable pub parse_usize : Text → Option ℕ
unfolding parse_digits
parse_usize [] = none
parse_usize (c ∷ []) = parse_digits 0 (c ∷ [])
parse_usize (c ∷ d ∷ s) = if c == b'+' then parse_digits 0 (d ∷ s) else parse_digits 0 (c ∷ d ∷ s)

parse_digits-digits :
    (fuel n : ℕ) (acc : Text)
    → n < fuel
    → n ≤ usize_max
    → parse_digits 0 (digits fuel n acc) ≡ parse_digits n acc
unfolding digits parse_digits
parse_digits-digits zero n acc h top = absurd (omega arith)
parse_digits-digits (suc fuel) n acc h top = elim (Bool-cases (ltb n 10)) [
  | inl e ↦ rw (e, digits) (ground arith)
  | inr e ↦
      rw (e, digits)
        (parse_digits-digits fuel (n / 10) ((b'0' + n % 10) ∷ acc) (ground arith) (omega arith)
          ∙ ground arith)
]

digits-cons :
    (fuel n : ℕ) (acc : Text) → n < fuel → (c : ℕ) × (s : Text) × (digits fuel n acc ≡ c ∷ s)
unfolding digits
digits-cons zero n acc h = absurd (omega arith)
digits-cons (suc fuel) n acc h = elim (Bool-cases (ltb n 10)) [
  | inl e ↦ rw (e, digits) (b'0' + n, acc, refl)
  | inr e ↦ rw (e, digits) (digits-cons fuel (n / 10) ((b'0' + n % 10) ∷ acc) (ground arith))
]

-- A text that is read from its first character starts with a digit, so it has no sign.
parse_usize-parse_digits :
    (c v : ℕ) (s : Text) → parse_digits 0 (c ∷ s) ≡ some v → parse_usize (c ∷ s) ≡ some v
unfolding parse_usize parse_digits
parse_usize-parse_digits c v [] h = h
parse_usize-parse_digits c v (d ∷ s) h = ground arith

pub parse_usize-to_decimal : (n : ℕ) → n ≤ usize_max → parse_usize (to_decimal n) ≡ some n
unfolding to_decimal parse_digits
parse_usize-to_decimal n top =
    let (c, s, e) = digits-cons (n + 1) n [] (omega arith) in
    rw e (
      parse_usize-parse_digits c n s
        (ap (parse_digits 0) (sym e) ∙ (parse_digits-digits (n + 1) n [] (omega arith) top ∙ refl)))
