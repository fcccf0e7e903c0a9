-- ===== src/Core/RetryPolicy.antt =====
-- `RetryPolicy` of crates/veilid-http-core/src/lib.rs. Delays are u64 milliseconds.
mod Tests
use veilid_http.Prelude.{ℕ, zero, suc, ◌+◌, ◌*◌, ◌^◌, ◌≤◌, ◌<◌, ◌≡◌, refl, ap, ◌∙◌, min, arith}
use native.Mathlib.Nat.{pow-le-pow_right, pow-suc, one-le-pow}
use veilid_http.Prelude.Words.{u64_max, saturating_mul}

pub record RetryPolicy : Type 0 where
  pub initial_ms : ℕ
  pub maximum_ms : ℕ

pub delay_ms : RetryPolicy → ℕ → ℕ
delay_ms p attempts =
    let shift = min attempts 20 in
    min (saturating_mul u64_max p.initial_ms (2 ^ shift)) p.maximum_ms

-- For an initial delay that fits u64: a delay never exceeds the maximum, never falls as attempts
-- grow, and is at least the smaller of the initial delay and the maximum.
pub delay_ms_bounds :
    (p : RetryPolicy) (a b : ℕ)
    → p.initial_ms ≤ u64_max
    → a ≤ b
    → (delay_ms p a ≤ delay_ms p b)
      × (delay_ms p b ≤ p.maximum_ms)
      × (min p.initial_ms p.maximum_ms ≤ delay_ms p a)
unfolding delay_ms
delay_ms_bounds p a b fits h = (omega (arith, scaled), omega arith, omega (arith, least))
  where
    grown : 2 ^ min a 20 ≤ 2 ^ min b 20
    grown = pow-le-pow_right (omega arith) (omega arith)

    scaled : p.initial_ms * 2 ^ min a 20 ≤ p.initial_ms * 2 ^ min b 20
    scaled = grind (arith, grown)

    least : p.initial_ms ≤ p.initial_ms * 2 ^ min a 20
    least = grind (arith, one-le-pow (min a 20) 2)

-- Where the maximum fits u64 and the next delay is below it, the delay doubles with each of the
-- first twenty attempts.
pub delay_ms_doubles :
    (p : RetryPolicy) (a : ℕ)
    → a < 20
    → p.maximum_ms ≤ u64_max
    → delay_ms p (suc a) < p.maximum_ms
    → delay_ms p (suc a) ≡ 2 * delay_ms p a
unfolding delay_ms
delay_ms_doubles p a h top below = omega (arith, doubled)
  where
    power : 2 ^ min (suc a) 20 ≡ 2 * 2 ^ min a 20
    power = ap (λ k. 2 ^ k) shift ∙ omega (arith, pow-suc 2 (min a 20))
      where
        shift : min (suc a) 20 ≡ suc (min a 20)
        shift = omega arith

    doubled : p.initial_ms * 2 ^ min (suc a) 20 ≡ 2 * (p.initial_ms * 2 ^ min a 20)
    doubled = omega (arith, ap (λ (t : ℕ). p.initial_ms * t) power)
