-- ===== src/Pipeline/Executor/Call.antt =====
-- `run_call` of rs2-core/src/pipeline/executor.rs: a call with its retries, and what becomes of the response.
pub mod Elevation
pub mod Preparation
pub mod Requests
pub mod Keys
use rs2_runtime.Common.{
  ℕ, zero, suc, Bool, true, false, Option, none, some, List, [], ◌∷◌, ◌++◌, not, is_some, ◌&&◌,
  if◌then◌else◌,
}
use rs2_runtime.Common.Text.{Text, lit}
use rs2_runtime.Crypto.{Outcome, panic, returned}
use rs2_runtime.Error.{Result, ok, err, RsError, bad_request}
use rs2_runtime.Error.Problem.{put}
use rs2_runtime.Json.{Value, Fields, unwrap_or}
use rs2_runtime.Message.{Message, Method, is_ok}
use rs2_runtime.Message.Content.{from_json}
use rs2_runtime.Retry.{EffectClass, RetryPolicy, no_retry}
use rs2_runtime.Retry.Loop.{Run, retry_request}
use rs2_runtime.Outbound.{is_external_url}
use rs2_runtime.Pipeline.Spec.{CallSpec, StepParts}
use rs2_runtime.Pipeline.Executor.Base.{
  World, Executor, Place, key_path, Flow, continue, Sent, Ended, fails, panics, gives, Exec, done,
  lift, ◌>>=◌, captured_name, Msg, error_response, resolve_text,
}
use rs2_runtime.Pipeline.Executor.Target.{
  Bodies, CallTarget, inside, outside, target_of, needs_key, derive_key, elevated,
}
use rs2_runtime.Pipeline.Executor.Request.{
  interpolation_context, error_value, value_of, Prepared, request_for, prepare, with_headers,
}

module _ (w : World) (x : Executor (w.floats.F)) where
  abbrev pub Step : Type 0
  Step = StepParts (w.floats.F)

  -- A run of the retry loop; the fuel is enough, so that the default does not occur.
  abbrev pub first_attempt : (ℕ → Result (Msg w)) → Run (Msg w)
  first_attempt call = record { result = call 1; attempts = 1; sleeps = [] }

  abbrev pub policy_of : Step → Bodies → RetryPolicy (w.floats.F)
  policy_of step (cloneable, some body) = no_retry w.floats
  policy_of step (cloneable, none) = unwrap_or step.retry x.retry

  -- The answer to the `n`-th attempt.
  abbrev pub attempt_result : Place → Prepared w x → Msg w → CallTarget → ℕ → Result (Msg w)
  attempt_result place c msg inside n = ok (w.answer place n (request_for w x c msg inside n))
  attempt_result place c msg (outside g) n = w.send place n g (request_for w x c msg (outside g) n)

  abbrev pub grant_of : CallTarget → Option ℕ
  grant_of inside = none
  grant_of (outside g) = some g

  -- The requests of the attempts from `n` on, of which `k` are left.
  unfoldable pub sent_from : Place → Prepared w x → Msg w → CallTarget → ℕ → ℕ → List (Sent (Msg w))
  unfolding request_for
  sent_from place c msg target n zero = []
  sent_from place c msg target n (suc k) =
      record {
        place = place;
        grant = grant_of target;
        attempt_number = n;
        request = request_for w x c msg target n;
      }
      ∷ sent_from place c msg target (suc n) k

  abbrev pub retried : Place → Step → Prepared w x → Msg w → CallTarget → Run (Msg w)
  retried place step c msg target =
      let call = attempt_result place c msg target in
      unwrap_or
        (retry_request w.api w.floats w.draw w.retry_after (policy_of step c.bodies) c.effect
          (needs_key c.effect) call)
        (first_attempt call)

  -- An error of an external call becomes a response.
  abbrev pub shaped : Bool → Msg w → Result (Msg w) → Result (Msg w)
  shaped external msg (ok resp) = ok resp
  shaped true msg (err e) = ok (error_response w msg e)
  shaped false msg (err e) = err e

  abbrev pub perform :
      Place → Step → Prepared w x → Msg w → Bool → Result CallTarget → Exec (Msg w) (Msg w)
  perform place step c msg external (err e) = lift (shaped external msg (err e))
  perform place step c msg external (ok target) =
      let run = retried place step c msg target in
      (
        sent_from place c msg target 1 run.attempts,
        (lift {M = Msg w} (shaped external msg run.result)).1,
      )

  abbrev pub named : Option Text → Option Text → Msg w → Msg w
  named (some name) before out = record out { name = some name }
  named none before out = elim out.name [ none ↦ record out { name = before } | some name ↦ out ]

  abbrev pub captured : Text → Fields → Msg w → Result Value → Exec (Msg w) (Fields × Flow (Msg w))
  captured capture vars msg (err e) = ([], fails e)
  captured capture vars msg (ok v) = done (put (captured_name capture) v vars, continue msg)

  -- A failure that is tried becomes a body.
  abbrev pub tried : Bool → Msg w → Msg w
  tried try_mode out =
      if not (is_ok out) && try_mode
      then record out { body = some (from_json w.codec (error_value w x out)); status = some 200 }
      else out

  abbrev pub settled : Step → Fields → Msg w → Msg w → Exec (Msg w) (Fields × Flow (Msg w))
  settled step vars msg out = elim step.capture [
    | some capture ↦ captured capture vars msg (value_of w x out)
    | none ↦ done (vars, continue (tried step.try_mode out))
  ]

  abbrev pub dispatched :
      Place
      → Step
      → CallSpec
      → Fields
      → Prepared w x
      → Fields
      → Msg w
      → Outcome Bool
      → Exec (Msg w) (Fields × Flow (Msg w))
  dispatched place step call vars c ctx msg panic = ([], panics)
  dispatched place step call vars c ctx msg (returned external) =
      lift (with_headers w x call ctx c) >>= λ ready.
      perform place step ready msg external (target_of x.external ready.url external) >>= λ out.
      settled step vars msg (named step.name msg.name out)

  unfoldable pub run_call :
      Place → Step → CallSpec → Msg w → Fields → Exec (Msg w) (Fields × Flow (Msg w))
  unfolding prepare is_external_url with_headers
  run_call place step call msg vars = lift (prepare w x place step call msg vars) >>= λ p.
      dispatched place step call vars p.0 p.1.0 p.1.1 (is_external_url p.0.url)
