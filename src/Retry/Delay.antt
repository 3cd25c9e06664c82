-- ===== src/Retry/Delay.antt =====
-- The delay between attempts.
use rs2_runtime.Common.{ℕ, ◌-◌, ◌≤◌, Option, none, some, arith, min}
use rs2_runtime.Retry.{
  Floats, RetryPolicy, Jitter, no_jitter, full, jittered, backoff, delay, wait_for, server_delay,
}

jittered-le : (draw : ℕ → ℕ) (j : Jitter) (n : ℕ) → ((m : ℕ) → draw m ≤ m) → jittered draw j n ≤ n
jittered-le draw no_jitter n h = omega arith
jittered-le draw full n h = h n

wait_for-le :
    (fl : Floats) (draw : ℕ → ℕ) (policy : RetryPolicy (fl.F)) (attempt : ℕ) (after : Option ℕ)
    → ((m : ℕ) → draw m ≤ m)
    → wait_for fl draw policy attempt after ≤ policy.max_delay_ms
unfolding backoff
wait_for-le fl draw policy attempt (some ms) h = omega arith
wait_for-le fl draw policy attempt none h =
    let raw =
      fl.times (fl.of_u64 policy.base_delay_ms) (fl.powi policy.backoff_multiplier (attempt - 1)) in
    omega (arith, jittered-le draw policy.jitter (min (fl.to_u64 raw) policy.max_delay_ms) h)

-- Whatever the attempt, the float arithmetic and the server's Retry-After, a delay is at most the
-- policy's maximum, if the random source draws within its range.
pub delay-le-max :
    (fl : Floats) (draw : ℕ → ℕ) (policy : RetryPolicy (fl.F)) (attempt : ℕ) (after : Option ℕ)
    → ((m : ℕ) → draw m ≤ m)
    → delay fl draw policy attempt after ≤ policy.max_delay_ms
unfolding delay
delay-le-max fl draw policy attempt after h =
    wait_for-le fl draw policy attempt (server_delay policy.respect_retry_after after) h
