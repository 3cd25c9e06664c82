-- ===== src/Retry/Loop.antt =====
-- `retry_request`: the attempts of one call. `call n` is what the n-th attempt gives, and
-- `retry_after` reads the header of that name (`parse_retry_after`, in milliseconds).
pub mod Laws
use rs2_runtime.Common.{
  ℕ, zero, suc, ◌+◌, Bool, true, false, Option, none, some, List, [], ◌∷◌, leb, ◌&&◌, if◌then◌else◌,
}
use rs2_runtime.Common.Text.{lit, Text}
use rs2_runtime.Json.{unwrap_or}
use rs2_runtime.Error.{Result, ok, err, RsError}
use rs2_runtime.Message.{Message, HeaderApi, header}
use rs2_runtime.Retry.{Floats, RetryPolicy, EffectClass, retryable_status, attempt_cap, delay}

-- How the attempts of a call went.
pub record Run (R : Type 0) : Type 0 where
  pub result : Result R
  pub attempts : ℕ
  pub sleeps : List ℕ

-- What the loop makes of one attempt: return it, or sleep and try again.
pub data Verdict : Type 0 where
  settled : Verdict
  again : Option ℕ → Verdict

abbrev pub and_then : Option Text → (Text → Option ℕ) → Option ℕ
and_then none f = none
and_then (some s) f = f s

module _ (api : HeaderApi) (fl : Floats) (draw : ℕ → ℕ) (retry_after : Text → Option ℕ)
    (policy : RetryPolicy (fl.F)) where
  pub verdict : Result (Message (api.Map)) → Verdict
  unfolding retryable_status
  verdict (ok resp) =
      if retryable_status policy (unwrap_or resp.status 200)
      then again (and_then (header api (lit "retry-after") resp) retry_after)
      else settled
  verdict (err e) =
      if policy.enabled && policy.retry_on_network_error && e.retryable then again none else settled

  module _ (call : ℕ → Result (Message (api.Map))) (cap : ℕ) where
    abbrev pub slept : ℕ → Option (Run (Message (api.Map))) → Option (Run (Message (api.Map)))
    slept ms none = none
    slept ms (some run) = some (record run { sleeps = ms ∷ run.sleeps })

    -- One round from its verdict; `rest` is the loop from the next attempt on.
    abbrev pub round :
        ℕ → Option (Run (Message (api.Map))) → Verdict → Option (Run (Message (api.Map)))
    round n rest settled = some (record { result = call n; attempts = n; sleeps = [] })
    round n rest (again after) =
        if leb cap n
        then some (record { result = call n; attempts = n; sleeps = [] })
        else slept (delay fl draw policy n after) rest

    -- The loop from attempt `n` on; `none` if the fuel runs out.
    pub attempts_from : ℕ → ℕ → Option (Run (Message (api.Map)))
    attempts_from zero n = none
    attempts_from (suc fuel) n =
        let rest = attempts_from fuel (n + 1) in round n rest (verdict (call n))

  unfoldable pub retry_request :
      EffectClass → Bool → (ℕ → Result (Message (api.Map))) → Option (Run (Message (api.Map)))
  unfolding attempts_from verdict attempt_cap delay
  retry_request effect has_key call =
      let cap = attempt_cap policy effect has_key in attempts_from call cap cap 1
