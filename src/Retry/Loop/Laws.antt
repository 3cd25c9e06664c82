-- ===== src/Retry/Loop/Laws.antt =====
-- How many attempts a call makes, and which one it returns.
use rs2_runtime.Common.{
  ℕ, zero, suc, ◌+◌, ◌≤◌, ◌<◌, ◌≡◌, refl, ◌⊎◌, inl, inr, Bool, false, Option, none, some, [], ◌∷◌,
  leb, arith, Bool-cases, max, length, ℕ_discrete,
}
use rs2_runtime.Common.Text.{Text}
use rs2_runtime.Error.{Result}
use rs2_runtime.Message.{Message, HeaderApi}
use rs2_runtime.Retry.{Floats, RetryPolicy, EffectClass, attempt_cap, delay, permits_retry}
use rs2_runtime.Retry.Loop.{
  Run, Verdict, settled, again, verdict, attempts_from, retry_request, round,
}

-- The verdict asks for another attempt.
abbrev pub IsRetryable : Verdict → Type 0
IsRetryable settled = ⊥
IsRetryable (again after) = Unit

attempt_cap-pos :
    {F : Type 0} (policy : RetryPolicy F) (effect : EffectClass) (has_key : Bool)
    → 0 < attempt_cap policy effect has_key
unfolding attempt_cap
attempt_cap-pos policy effect has_key = ground arith

attempt_cap_one :
    {F : Type 0} (policy : RetryPolicy F) (effect : EffectClass) (has_key : Bool)
    → permits_retry effect has_key ≡ false
    → attempt_cap policy effect has_key ≡ 1
unfolding attempt_cap
attempt_cap_one policy effect has_key h = ground arith

module _ (api : HeaderApi) (fl : Floats) (draw : ℕ → ℕ) (retry_after : Text → Option ℕ)
    (policy : RetryPolicy (fl.F)) where
  module _ (call : ℕ → Result (Message (api.Map))) (cap : ℕ) where
    -- `run` is what a loop from attempt `n` on should give.
    pub record IsFirstSettled (n : ℕ) (run : Run (Message (api.Map))) : Type 0 where
      pub from : n ≤ run.attempts
      pub capped : run.attempts ≤ max cap n
      pub returned : run.result ≡ call run.attempts
      pub retried :
          (k : ℕ)
          → n ≤ k
          → k < run.attempts
          → IsRetryable (verdict api fl draw retry_after policy (call k))
      pub slept_between : length run.sleeps + n ≡ run.attempts
      pub stopped :
          (cap ≤ run.attempts)
          ⊎ (verdict api fl draw retry_after policy (call run.attempts) ≡ settled)

    IsFirstSettled-cons :
        (n : ℕ) (after : Option ℕ) (run : Run (Message (api.Map)))
        → verdict api fl draw retry_after policy (call n) ≡ again after
        → n < cap
        → IsFirstSettled (n + 1) run
        → IsFirstSettled n (record run { sleeps = delay fl draw policy n after ∷ run.sleeps })
    IsFirstSettled-cons n after run e more first = record {
      from = omega (arith, first.from);
      capped = omega (arith, first.capped);
      returned = first.returned;
      retried = λ k p q. elim (ℕ_discrete k n) [
        | yes same ↦ rw (same, e) tt
        | no other ↦ first.retried k (omega arith) q
      ];
      slept_between = omega (arith, first.slept_between);
      stopped = first.stopped;
    }

    round_lem :
        (fuel n : ℕ) (v : Verdict)
        → verdict api fl draw retry_after policy (call n) ≡ v
        → ((n < cap)
            → (run : Run (Message (api.Map))) × (attempts_from api fl draw retry_after policy call
                  cap fuel
                  (n + 1)
                ≡ some run)
              × IsFirstSettled (n + 1) run)
        → (run : Run (Message (api.Map))) × (round api fl draw retry_after policy call cap n
              (attempts_from api fl draw retry_after policy call cap fuel (n + 1))
              v
            ≡ some run)
          × IsFirstSettled n run
    round_lem fuel n settled e ih = (
      record { result = call n; attempts = n; sleeps = [] },
      refl,
      record {
        from = omega arith;
        capped = omega arith;
        returned = refl;
        retried = λ k p q. absurd (omega arith);
        slept_between = omega arith;
        stopped = inr e;
      },
    )
    round_lem fuel n (again after) e ih = elim (Bool-cases (leb cap n)) [
      | inl last ↦ (
        record { result = call n; attempts = n; sleeps = [] },
        rw last,
        record {
          from = omega arith;
          capped = omega arith;
          returned = refl;
          retried = λ k p q. absurd (omega arith);
          slept_between = omega arith;
          stopped = inl (ground arith);
        },
      )
      | inr more ↦
          let (run, found, first) = ih (ground arith) in
          (
            record run { sleeps = delay fl draw policy n after ∷ run.sleeps },
            rw (more, found),
            IsFirstSettled-cons n after run e (ground arith) first,
          )
    ]

    -- The loop from an attempt on, with as much fuel as there are attempts left.
    attempts_from_lem :
        (fuel n : ℕ)
        → cap < n + fuel
        → 0 < fuel
        → (run : Run (Message (api.Map))) × (attempts_from api fl draw retry_after policy call cap
              fuel n
            ≡ some run)
          × IsFirstSettled n run
    unfolding attempts_from
    attempts_from_lem zero n h p = absurd (omega arith)
    attempts_from_lem (suc fuel) n h p =
        round_lem fuel n (verdict api fl draw retry_after policy (call n)) refl
          (λ q. attempts_from_lem fuel (n + 1) (omega arith) (omega arith))

  -- A call under a retry policy ends: with an attempt that is the last allowed one or is not to
  -- be retried, after attempts which were all to be retried, with one sleep between two attempts
  -- and at most as many attempts as the cap.
  pub retry_request_lem :
      (effect : EffectClass) (has_key : Bool) (call : ℕ → Result (Message (api.Map)))
      → (run : Run (Message (api.Map))) × (retry_request api fl draw retry_after policy effect
            has_key call
          ≡ some run)
        × IsFirstSettled call (attempt_cap policy effect has_key) 1 run
  unfolding retry_request
  retry_request_lem effect has_key call =
      attempts_from_lem call (attempt_cap policy effect has_key) (attempt_cap policy effect has_key)
        1 (omega arith) (attempt_cap-pos policy effect has_key)

  once :
      (call : ℕ → Result (Message (api.Map))) (v : Verdict)
      → round api fl draw retry_after policy call 1 1 none v
        ≡ some (record { result = call 1; attempts = 1; sleeps = [] })
  once call settled = refl
  once call (again after) = refl

  -- A call whose effect class permits no retry is attempted exactly once, whatever the attempt
  -- gives.
  pub retry_request_once :
      (effect : EffectClass) (has_key : Bool) (call : ℕ → Result (Message (api.Map)))
      → permits_retry effect has_key ≡ false
      → retry_request api fl draw retry_after policy effect has_key call
        ≡ some (record { result = call 1; attempts = 1; sleeps = [] })
  unfolding retry_request
  retry_request_once effect has_key call h =
      rw (attempt_cap_one policy effect has_key h)
        (unfold attempts_from in once call (verdict api fl draw retry_after policy (call 1)))
