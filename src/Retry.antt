-- ===== src/Retry.antt =====
-- rs2-core/src/retry.rs: effect classes, retry policies, and the loop that drives an attempt.
-- `f64` arithmetic and the random source are parameters (`Floats`, `Rng`); durations are counted in
-- milliseconds.
pub mod Delay
pub mod Loop
mod Tests
use rs2_runtime.Common.{
  ℕ, ◌-◌, ◌≤◌, Bool, true, false, Option, none, some, List, [], ◌∷◌, min, max, ◌==◌, any,
  if◌then◌else◌, ◌&&◌, ◌||◌,
}
use rs2_runtime.Message.{Method, get, head, options, put, delete}

pub data EffectClass : Type 0 where
  pure idempotent keyed unsafe : EffectClass

unfoldable pub default_for_method : Method → EffectClass
default_for_method get = pure
default_for_method head = pure
default_for_method options = pure
default_for_method put = idempotent
default_for_method delete = idempotent
default_for_method _ = unsafe

unfoldable pub permits_retry : EffectClass → Bool → Bool
permits_retry pure has_key = true
permits_retry idempotent has_key = true
permits_retry keyed has_key = has_key
permits_retry unsafe has_key = false

pub data Jitter : Type 0 where
  no_jitter full : Jitter

-- The `f64` operations that the backoff uses. `powi` takes the bit pattern of its i32 exponent.
pub record Floats : Type 1 where
  pub F : Type 0
  pub of_u64 : ℕ → F
  pub times : F → F → F
  pub powi : F → ℕ → F
  pub to_u64 : F → ℕ

pub record RetryPolicy (F : Type 0) : Type 0 where
  pub enabled : Bool
  pub max_attempts : ℕ
  pub base_delay_ms : ℕ
  pub max_delay_ms : ℕ
  pub backoff_multiplier : F
  pub jitter : Jitter
  pub retry_statuses : List ℕ
  pub retry_on_network_error : Bool
  pub respect_retry_after : Bool

-- `RetryPolicy::default` and `no_retry`.
abbrev pub default_policy : (fl : Floats) → RetryPolicy (fl.F)
default_policy fl = record {
  enabled = true;
  max_attempts = 4;
  base_delay_ms = 250;
  max_delay_ms = 5000;
  backoff_multiplier = fl.of_u64 2;
  jitter = full;
  retry_statuses = 408 ∷ 429 ∷ 500 ∷ 502 ∷ 503 ∷ 504 ∷ [];
  retry_on_network_error = true;
  respect_retry_after = true;
}

abbrev pub no_retry : (fl : Floats) → RetryPolicy (fl.F)
no_retry fl = let base = default_policy fl in record base { enabled = false; max_attempts = 1 }

-- The first policy of the chain that is present.
unfoldable pub resolve : (fl : Floats) → List (Option (RetryPolicy (fl.F))) → RetryPolicy (fl.F)
resolve fl [] = no_retry fl
resolve fl (none ∷ chain) = resolve fl chain
resolve fl (some p ∷ chain) = p

unfoldable pub retryable_status : {F : Type 0} → RetryPolicy F → ℕ → Bool
retryable_status policy status = policy.enabled && any (λ s. s == status) policy.retry_statuses

-- Where the attempts of a call stop.
unfoldable pub attempt_cap : {F : Type 0} → RetryPolicy F → EffectClass → Bool → ℕ
unfolding permits_retry
attempt_cap policy effect has_key =
    if policy.enabled && permits_retry effect has_key then max policy.max_attempts 1 else 1

-- The delay after a failed attempt. `draw n` is the number that `gen_range(0..=n)` gives.
abbrev pub jittered : (ℕ → ℕ) → Jitter → ℕ → ℕ
jittered draw no_jitter capped = capped
jittered draw full capped = draw capped

unfoldable pub backoff : (fl : Floats) → (ℕ → ℕ) → RetryPolicy (fl.F) → ℕ → ℕ
backoff fl draw policy failed_attempt =
    let raw =
      fl.times (fl.of_u64 policy.base_delay_ms)
        (fl.powi policy.backoff_multiplier (failed_attempt - 1)) in
    jittered draw policy.jitter (min (fl.to_u64 raw) policy.max_delay_ms)

abbrev pub server_delay : Bool → Option ℕ → Option ℕ
server_delay true (some ms) = some ms
server_delay _ _ = none

abbrev pub wait_for : (fl : Floats) → (ℕ → ℕ) → RetryPolicy (fl.F) → ℕ → Option ℕ → ℕ
wait_for fl draw policy failed_attempt (some ms) = min ms policy.max_delay_ms
wait_for fl draw policy failed_attempt none = backoff fl draw policy failed_attempt

unfoldable pub delay : (fl : Floats) → (ℕ → ℕ) → RetryPolicy (fl.F) → ℕ → Option ℕ → ℕ
unfolding backoff
delay fl draw policy failed_attempt retry_after =
    wait_for fl draw policy failed_attempt (server_delay policy.respect_retry_after retry_after)
