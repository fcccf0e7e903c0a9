-- ===== src/Prelude/Bits.antt =====
-- Single bits of a number: `x | (1 << n)`, `x & (1 << n) != 0` and `count_ones`.
use Prim.Native.Nat.{
  ℕ, zero, suc, ◌+◌, ◌*◌, ◌/◌, ◌%◌, ◌^◌, ◌≤◌, min, max, bit_and, bit_or, digits, bit_and-bitwise,
  bit_or-bitwise,
}
use mathlib.Core.Path.{◌≡◌, refl, ap, ◌∙◌, sym}
use mathlib.Core.Bool.{Bool, false, not, ◌||◌}
use native.Mathlib.Omega.{arith}
use native.Mathlib.Nat.{pow-suc}
use veilid_http.Prelude.Tests.{◌==◌}

-- The number of rounds does not matter once it covers the first argument.
digits_rounds :
    (g : ℕ → ℕ) (f : ℕ → ℕ → ℕ) (n m a b : ℕ) → a ≤ n → a ≤ m → digits g f n a b ≡ digits g f m a b
digits_rounds g f zero zero a b p q = refl
digits_rounds g f zero (suc m) zero b p q = refl
digits_rounds g f zero (suc m) (suc a) b p q = absurd (omega arith)
digits_rounds g f (suc n) zero zero b p q = refl
digits_rounds g f (suc n) zero (suc a) b p q = absurd (omega arith)
digits_rounds g f (suc n) (suc m) zero b p q = refl
digits_rounds g f (suc n) (suc m) (suc a) b p q =
    ap (λ (d : ℕ). d * 2 + f (suc a % 2) (b % 2))
      (digits_rounds g f n m (suc a / 2) (b / 2) (omega arith) (omega arith))

-- The lowest digit, and the digits above it.
bit_or_low : (a b : ℕ) → bit_or a b ≡ bit_or (a / 2) (b / 2) * 2 + max (a % 2) (b % 2)
bit_or_low zero b = omega (arith, bit_or-bitwise 0 b, bit_or-bitwise 0 (b / 2))
bit_or_low (suc a) b = omega (
  arith,
  bit_or-bitwise (suc a) b,
  bit_or-bitwise (suc a / 2) (b / 2),
  digits_rounds (λ y. y) max a (suc a / 2) (suc a / 2) (b / 2) (omega arith) (omega arith),
)

bit_and_low : (a b : ℕ) → bit_and a b ≡ bit_and (a / 2) (b / 2) * 2 + min (a % 2) (b % 2)
bit_and_low zero b = omega (arith, bit_and-bitwise 0 b, bit_and-bitwise 0 (b / 2))
bit_and_low (suc a) b = omega (
  arith,
  bit_and-bitwise (suc a) b,
  bit_and-bitwise (suc a / 2) (b / 2),
  digits_rounds (λ y. 0) min a (suc a / 2) (suc a / 2) (b / 2) (omega arith) (omega arith),
)

-- `x & (1 << k) != 0`.
abbrev pub test_bit : ℕ → ℕ → Bool
test_bit x k = not (bit_and x (2 ^ k) == 0)

-- The same by halving.
bit : ℕ → ℕ → Bool
bit x zero = x % 2 == 1
bit x (suc k) = bit (x / 2) k

and_zero : (fuel a : ℕ) → a ≤ fuel → bit_and a 0 ≡ 0
and_zero fuel zero h = refl
and_zero zero (suc a) h = absurd (omega arith)
and_zero (suc fuel) (suc a) h =
    omega (arith, bit_and_low (suc a) 0, and_zero fuel (suc a / 2) (omega arith))

or_zero : (fuel a : ℕ) → a ≤ fuel → bit_or a 0 ≡ a
or_zero fuel zero h = refl
or_zero zero (suc a) h = absurd (omega arith)
or_zero (suc fuel) (suc a) h =
    omega (arith, bit_or_low (suc a) 0, or_zero fuel (suc a / 2) (omega arith))

and_one : (a : ℕ) → bit_and a 1 ≡ a % 2
and_one a = omega (arith, bit_and_low a 1, and_zero (a / 2) (a / 2) (omega arith))

test_bit-bit : (k x : ℕ) → test_bit x k ≡ bit x k
unfolding bit
test_bit-bit zero x = ground (arith, and_one x)
test_bit-bit (suc k) x =
    ground (arith, bit_and_low x (2 ^ suc k), pow-suc 2 k, half, test_bit-bit k (x / 2))
  where
    half : bit_and (x / 2) (2 ^ suc k / 2) ≡ bit_and (x / 2) (2 ^ k)
    half = ap (bit_and (x / 2)) (omega (arith, pow-suc 2 k))

bit-zero : (k : ℕ) → bit 0 k ≡ false
unfolding bit
bit-zero zero = refl
bit-zero (suc k) = bit-zero k

bit-or_pow : (n k x : ℕ) → bit (bit_or x (2 ^ n)) k ≡ (n == k) || bit x k
unfolding bit
bit-or_pow zero zero x = ground (arith, bit_or_low x 1)
bit-or_pow zero (suc k) x = ap (λ y. bit y k) e ∙ ground arith
  where
    e : bit_or x (2 ^ 0) / 2 ≡ x / 2
    e = omega (arith, bit_or_low x 1, or_zero (x / 2) (x / 2) (omega arith))
bit-or_pow (suc n) zero x = ground (arith, bit_or_low x (2 ^ suc n), pow-suc 2 n)
bit-or_pow (suc n) (suc k) x =
    ap (λ y. bit y k) half ∙ bit-or_pow n k (x / 2) ∙ ap (λ b. b || bit (x / 2) k) (ground arith)
  where
    quot : 2 ^ suc n / 2 ≡ 2 ^ n
    quot = omega (arith, pow-suc 2 n)

    half : bit_or x (2 ^ suc n) / 2 ≡ bit_or (x / 2) (2 ^ n)
    half = omega (arith, bit_or_low x (2 ^ suc n), pow-suc 2 n, ap (bit_or (x / 2)) quot)

-- No bit of 0 is set.
pub test_bit-zero : (k : ℕ) → test_bit 0 k ≡ false
test_bit-zero k = test_bit-bit k 0 ∙ bit-zero k

-- `x | (1 << n)` sets bit `n` and keeps the others.
pub test_bit-or_pow : (n k x : ℕ) → test_bit (bit_or x (2 ^ n)) k ≡ (n == k) || test_bit x k
test_bit-or_pow n k x =
    test_bit-bit k (bit_or x (2 ^ n))
    ∙ bit-or_pow n k x
    ∙ ap (λ b. (n == k) || b) (sym (test_bit-bit k x))
