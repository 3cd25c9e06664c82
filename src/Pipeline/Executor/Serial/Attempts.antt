-- ===== src/Pipeline/Executor/Serial/Attempts.antt =====
-- The attempts of a segment.
use rs2_runtime.Common.{
  ℕ, zero, suc, ◌-◌, ◌≤◌, ltb, ◌≡◌, refl, sym, ap, ◌∙◌, ◌⊎◌, inl, inr, Bool, true, Bool-cases,
  Option, none, some, is_some, List, [], ◌++◌, if◌then◌else◌, arith,
}
use mathlib.Core.Bool.{and-eq-true_iff}
use mathlib.Core.List.{append-nil}
use rs2_runtime.Retry.{EffectClass, idempotent, keyed, unsafe, permits_retry}
use rs2_runtime.Json.{Fields}
use rs2_runtime.Message.{Body}
use rs2_runtime.Pipeline.Spec.{SpecParts, Steps, last_step, step, effect_class}
use rs2_runtime.Pipeline.Segments.{Segment}
use rs2_runtime.Pipeline.Executor.Base.{
  World, Executor, Place, Flow, Sent, Ended, fails, panics, gives, chain, ◌>>=◌, Msg,
}
use rs2_runtime.Pipeline.Executor.Step.{Runner}
use rs2_runtime.Pipeline.Executor.Serial.{
  Ran, kept, is_retried, run_attempts, run_retried, one_attempt, max_attempts_of, steps_from,
  attempt_message, all_permit, permits,
}

module _ (w : World) (x : Executor (w.floats.F)) where
  -- An attempt that is repeated if another is allowed: it aborts with a status that the policy retries.
  abbrev pub IsRetryable : Ran w x → Type 0
  IsRetryable r = (a : Fields × Flow (Msg w)) × (r.1 ≡ gives a) × (is_retried w x a ≡ true)

  abbrev pub kept_end :
      Bool → Fields → Ended (Fields × Flow (Msg w)) → Ended (Fields × Flow (Msg w))
  kept_end scratch before (fails e) = fails e
  kept_end scratch before panics = panics
  kept_end scratch before (gives a) = gives (kept w x scratch before a)

  module _ (segment : ℕ → Ran w x) where
    -- Of `c` attempts from the `n`-th on: that all are to be repeated, and what they send.
    abbrev pub AllRetryable : ℕ → ℕ → Type 0
    AllRetryable n zero = Unit
    AllRetryable n (suc c) = IsRetryable (segment n) × AllRetryable (suc n) c

    abbrev pub sent_by : ℕ → ℕ → List (Sent (Msg w))
    sent_by n zero = []
    sent_by n (suc c) = (segment n).0 ++ sent_by (suc n) c

    -- The attempt after `c` others from the `n`-th on.
    abbrev pub attempt_after : ℕ → ℕ → Ran w x
    attempt_after n zero = segment n
    attempt_after n (suc c) = attempt_after (suc n) c

    -- A run of the attempts from the `n`-th on, of which `left` may be repeated.
    abbrev pub IsSettled : Bool → Fields → ℕ → ℕ → Ran w x → Type 0
    IsSettled scratch vars n left out =
        (c : ℕ) × (c ≤ left)
        × AllRetryable n c
        × (out.0 ≡ sent_by n (suc c))
        × (out.1 ≡ kept_end scratch vars ((attempt_after n c).1))
        × ((c ≡ left) ⊎ (IsRetryable (attempt_after n c) → ⊥))

    last-IsSettled :
        (scratch : Bool) (vars : Fields) (r : Ran w x)
        → (((r >>= λ a. ([], gives (kept w x scratch vars a))).0) ≡ r.0 ++ [])
          × (((r >>= λ a. ([], gives (kept w x scratch vars a))).1) ≡ kept_end scratch vars r.1)
    last-IsSettled scratch vars (log, fails e) = (sym (append-nil log), refl)
    last-IsSettled scratch vars (log, panics) = (sym (append-nil log), refl)
    last-IsSettled scratch vars (log, gives a) = (refl, refl)

    -- The first attempt is the last.
    stopped-IsSettled :
        (scratch : Bool) (vars : Fields) (n left : ℕ) (out : Ran w x)
        → out.0 ≡ (segment n).0 ++ []
        → out.1 ≡ kept_end scratch vars (segment n).1
        → (IsRetryable (segment n) → ⊥)
        → IsSettled scratch vars n (suc left) out
    stopped-IsSettled scratch vars n left out sent result final =
        (0, omega arith, tt, sent, result, inr final)

    ended_otherwise :
        (r : Ran w x) (e : Ended (Fields × Flow (Msg w)))
        → r.1 ≡ e
        → ((a : Fields × Flow (Msg w)) → e ≡ gives a → is_retried w x a ≡ true → ⊥)
        → IsRetryable r
        → ⊥
    ended_otherwise r e same none_ (a, given, again) = none_ a (sym same ∙ given) again

    again-IsSettled :
        (scratch : Bool) (vars : Fields) (n left : ℕ) (rest : Ran w x)
        → IsRetryable (segment n)
        → IsSettled scratch vars (suc n) left rest
        → IsSettled scratch vars n (suc left) ((segment n).0 ++ rest.0, rest.1)
    again-IsSettled scratch vars n left rest r (c, most, aborted, sent, result, final) = (
      suc c,
      omega arith,
      (r, aborted),
      ap (λ l. (segment n).0 ++ l) sent,
      result,
      elim final [ inl e ↦ inl (ap suc e) | inr stays ↦ inr stays ],
    )

    gives-injective : (a b : Fields × Flow (Msg w)) → gives a ≡ gives b → a ≡ b
    gives-injective a b h = cc

    one_more-IsSettled :
        (scratch : Bool) (vars : Fields) (n left : ℕ) (rest : Ran w x) (log : List (Sent (Msg w)))
        (e : Ended (Fields × Flow (Msg w)))
        → (segment n).0 ≡ log
        → (segment n).1 ≡ e
        → IsSettled scratch vars (suc n) left rest
        → IsSettled scratch vars n (suc left) (
            chain log e
              λ a. if is_retried w x a then rest else ([], gives (kept w x scratch vars a)))
    one_more-IsSettled scratch vars n left rest log (fails e) l same h =
        stopped-IsSettled scratch vars n left (log, fails e) (sym l ∙ sym (append-nil _))
          (sym (ap (kept_end scratch vars) same))
          (ended_otherwise (segment n) (fails e) same λ a k t. cc)
    one_more-IsSettled scratch vars n left rest log panics l same h =
        stopped-IsSettled scratch vars n left (log, panics) (sym l ∙ sym (append-nil _))
          (sym (ap (kept_end scratch vars) same))
          (ended_otherwise (segment n) panics same λ a k t. cc)
    one_more-IsSettled scratch vars n left rest log (gives a) l same h =
        elim (Bool-cases (is_retried w x a)) [
          | inl again ↦
              rw (again, ← l) (again-IsSettled scratch vars n left rest (a, same, again) h)
          | inr settled ↦ rw settled (
              stopped-IsSettled scratch vars n left (log ++ [], gives (kept w x scratch vars a))
                (ap (λ t. t ++ []) (sym l)) (sym (ap (kept_end scratch vars) same))
                (ended_otherwise (segment n) (gives a) same
                  λ b k t. cc (ap (is_retried w x) (gives-injective a b k), settled, t)))
        ]

    pub run_attempts-IsSettled :
        (scratch : Bool) (vars : Fields) (n left : ℕ)
        → IsSettled scratch vars n left (run_attempts w x segment scratch vars n left)
    unfolding run_attempts
    run_attempts-IsSettled scratch vars n zero =
        let (sent, out) = last-IsSettled scratch vars (segment n) in
        (0, omega arith, tt, sent, out, inl refl)
    run_attempts-IsSettled scratch vars n (suc left) =
        one_more-IsSettled scratch vars n left (run_attempts w x segment scratch vars (suc n) left)
          ((segment n).0) ((segment n).1) refl refl
          (run_attempts-IsSettled scratch vars (suc n) left)

  -- The class of the step's own action: a nested pipeline has none, whatever its calls.
  abbrev pub IsRepeatableClass : Option EffectClass → Type 0
  IsRepeatableClass none = Unit
  IsRepeatableClass (some unsafe) = ⊥
  IsRepeatableClass (some _) = Unit

  -- None of the first `n` steps is itself an unsafe call.
  abbrev pub NoneUnsafe : ℕ → Steps (w.floats.F) → Type 0
  NoneUnsafe zero steps = Unit
  NoneUnsafe (suc n) last_step = Unit
  NoneUnsafe (suc n) (step s inner rest) =
      IsRepeatableClass (effect_class w.method_of s) × NoneUnsafe n rest

  permits-IsRepeatableClass : (c : Option EffectClass) → permits w x c ≡ true → IsRepeatableClass c
  unfolding permits_retry
  permits-IsRepeatableClass none h = tt
  permits-IsRepeatableClass (some EffectClass.pure) h = tt
  permits-IsRepeatableClass (some idempotent) h = tt
  permits-IsRepeatableClass (some keyed) h = tt
  permits-IsRepeatableClass (some unsafe) h = absurd (cc)

  all_permit-NoneUnsafe :
      (n : ℕ) (steps : Steps (w.floats.F)) → all_permit w x n steps ≡ true → NoneUnsafe n steps
  all_permit-NoneUnsafe zero steps h = tt
  all_permit-NoneUnsafe (suc n) last_step h = tt
  all_permit-NoneUnsafe (suc n) (step s inner rest) h =
      let (here, later) = (and-eq-true_iff _ _).0 h in
      (
        permits-IsRepeatableClass (effect_class w.method_of s) here,
        all_permit-NoneUnsafe n rest later,
      )

  -- Why a segment may have more than one attempt.
  abbrev pub IsRepeatable : Option (Option Body) → ℕ → Steps (w.floats.F) → Type 0
  IsRepeatable snapshot n steps =
      (is_some snapshot ≡ true) × NoneUnsafe n steps × (x.retry.enabled ≡ true)

  max_attempts_of-IsRepeatable :
      (snapshot : Option (Option Body)) (n : ℕ) (steps : Steps (w.floats.F))
      → (max_attempts_of w x snapshot n steps ≡ 1) ⊎ IsRepeatable snapshot n steps
  max_attempts_of-IsRepeatable none n steps = inl refl
  max_attempts_of-IsRepeatable (some b) n steps = elim (Bool-cases (all_permit w x n steps)) [
    | inr never ↦ inl (rw never refl)
    | inl permit ↦ elim (Bool-cases x.retry.enabled) [
      | inr off ↦ inl (rw (permit, off) refl)
      | inl on ↦ inr (refl, all_permit-NoneUnsafe n steps permit, on)
    ]
  ]

-- A segment runs in attempts, at least one and no more than are allowed, each of the same message
-- and variables: all before the last aborted with a status that is retried, and the last is the
-- last allowed or is not to be retried. The requests are those of the attempts in their order,
-- and the end is that of the last, without its variables if it aborted where more than one is
-- allowed. More than one is allowed only with a snapshot of the body, where the retry is enabled
-- and none of the steps of the segment is itself an unsafe call; the calls of pipelines nested in
-- its steps do not count.
pub run_retried-IsSettled :
    (w : World) (x : Executor (w.floats.F)) (nested : Runner w) (parts : SpecParts)
    (to_step : Option ℕ) (place : Place) (steps : Steps (w.floats.F)) (seg : Segment)
    (vars : Fields) (msg : Msg w) (snapshot : Option (Option Body))
    → ((max_attempts_of w x snapshot (seg.end - seg.start) (steps_from seg.start steps) ≡ 1)
        ⊎ IsRepeatable w x snapshot (seg.end - seg.start) (steps_from seg.start steps))
      × IsSettled w x
          (one_attempt w x nested parts to_step place steps seg
            (attempt_message w x msg snapshot)
            vars)
          (ltb 1 (max_attempts_of w x snapshot (seg.end - seg.start) (steps_from seg.start steps)))
          vars
          1
          (max_attempts_of w x snapshot (seg.end - seg.start) (steps_from seg.start steps) - 1)
          (run_retried w x nested parts to_step place steps seg vars (msg, snapshot))
unfolding run_retried
run_retried-IsSettled w x nested parts to_step place steps seg vars msg snapshot = (
  max_attempts_of-IsRepeatable w x snapshot (seg.end - seg.start) (steps_from seg.start steps),
  run_attempts-IsSettled w x _ _ vars 1 _,
)
