-- ===== src/Core/RetryPolicy/Tests.antt =====
-- Delays of a concrete policy, and the theorems at it.
use veilid_http.Prelude.{◌≤◌, ◌≡◌, refl, arith, min}
use veilid_http.Core.RetryPolicy.{RetryPolicy, delay_ms, delay_ms_bounds}

abbrev policy : RetryPolicy
policy = record { initial_ms = 500; maximum_ms = 30_000 }

-- `retry_policy_caps_exponential_backoff`.
fourth : delay_ms policy 3 ≡ 4000
unfolding delay_ms
fourth = refl

capped : delay_ms policy 30 ≡ 30_000
unfolding delay_ms
capped = refl

delay_ms_bounds_example :
    (delay_ms policy 2 ≤ delay_ms policy 5)
    × (delay_ms policy 5 ≤ 30_000)
    × (min 500 30_000 ≤ delay_ms policy 2)
delay_ms_bounds_example = delay_ms_bounds policy 2 5 (omega arith) (omega arith)
