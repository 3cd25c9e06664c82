-- ===== src/Pipeline/Executor/Serial.antt =====
-- `run_serial`, `run_segment` and `snapshot_body` of rs2-core/src/pipeline/executor.rs: the segments of a
-- serial pipeline, and their retries. The nested pipelines are run by a parameter.
pub mod Attempts
use rs2_runtime.Common.{
  ℕ, zero, suc, ◌+◌, ◌-◌, max, Bool, true, false, Option, none, some, List, [], ◌∷◌, ◌++◌, ltb, leb,
  not, is_some, ◌&&◌, keep, map, if◌then◌else◌,
}
use rs2_runtime.Common.Text.{Text, lit, split, split_once, is_empty}
use rs2_runtime.Error.{Result, ok, err, RsError, internal, limit_exceeded}
use rs2_runtime.Error.Problem.{put, put_all}
use rs2_runtime.Json.{
  Value, string, array, object, Items, nil, cons, Fields, end, lookup, unwrap_or,
}
use rs2_runtime.Message.{Message, Body, Bytes, Principal, MsgUrl, is_ok}
use rs2_runtime.Message.Url.{pair_of, query_param, service_segments}
use rs2_runtime.Message.Materialize.{materialize}
use rs2_runtime.Message.Content.{is_stream}
use rs2_runtime.Retry.{RetryPolicy, EffectClass, permits_retry, retryable_status}
use rs2_runtime.Pipeline.Spec.{
  Mode, serial, parallel, conditional, tee, tee_wait, Action, stop, next, finish, StepParts,
  SpecParts, PipelineSpec, spec, Steps, last_step, step, Sub, no_sub, sub, effect_class,
  fail_action, succeed_action,
}
use rs2_runtime.Pipeline.Segments.{Segment, plan, count}
use rs2_runtime.Pipeline.Executor.Base.{
  World, Executor, Place, at_step, attempt, Flow, continue, exit, abort, Sent, Ended, fails, panics,
  gives, Exec, done, lift, ◌>>=◌, clone_body, try_clone, clone_with_body, materialize_if_needed,
  status_or, Msg,
}
use rs2_runtime.Pipeline.Executor.Call.{Step}
use rs2_runtime.Pipeline.Executor.Step.{Runner, step_condition_passes, run_step}
use rs2_runtime.Pipeline.Executor.Fanout.{run_split}
use rs2_runtime.Pipeline.Executor.Parallel.{run_parallel}

module _ {F : Type 0} where
  -- `steps[i..]`.
  abbrev pub steps_from : ℕ → Steps F → Steps F
  steps_from zero steps = steps
  steps_from (suc i) last_step = last_step
  steps_from (suc i) (step s inner rest) = steps_from i rest

-- Whether step `i` is one behind the last that a run for debugging executes.
abbrev pub is_behind : ℕ → Option ℕ → Bool
is_behind i none = false
is_behind i (some n) = ltb n i

-- Whether that last step is in front of step `i`.
abbrev pub is_before : Option ℕ → ℕ → Bool
is_before none i = false
is_before (some n) i = ltb n i

module _ (w : World) (x : Executor (w.floats.F)) where
  abbrev pub Ran : Type 0
  Ran = Exec (Msg w) (Fields × Flow (Msg w))

  -- What follows a step that gave a message, in its pipeline.
  abbrev pub on_fail_next : Action → Fields → Msg w → (Msg w → Fields → Ran) → Ran
  on_fail_next stop vars out later = done (vars, abort out)
  on_fail_next finish vars out later = done (vars, exit out)
  on_fail_next next vars out later = later out vars

  abbrev pub on_succeed_next : Action → Fields → Msg w → (Msg w → Fields → Ran) → Ran
  on_succeed_next finish vars out later = done (vars, exit out)
  on_succeed_next _ vars out later = later out vars

  abbrev pub has_failed : Step w x → Msg w → Bool
  has_failed s out = not (is_ok out) && (not (is_some s.capture) && not s.try_mode)

  abbrev pub after_step :
      SpecParts → Step w x → (Msg w → Fields → Ran) → Fields × Flow (Msg w) → Ran
  after_step parts s later (vars, exit m) = done (vars, exit m)
  after_step parts s later (vars, abort m) = done (vars, abort m)
  after_step parts s later (vars, continue out) =
      if has_failed s out
      then on_fail_next (fail_action parts) vars out later
      else on_succeed_next (succeed_action parts) vars out later

  -- A split whose condition does not pass is skipped; one that passes consumes the steps behind it.
  abbrev pub serial_step :
      Runner w
      → SpecParts
      → Step w x
      → Sub (w.floats.F)
      → Steps (w.floats.F)
      → ℕ
      → Place
      → Msg w
      → Fields
      → (Msg w → Fields → Ran)
      → Ran
  serial_step nested parts s inner rest i place msg vars later =
      if is_some s.split
      then (lift (step_condition_passes w x s msg vars) >>= λ passes.
          if passes then run_split w x nested parts rest place msg vars else later msg vars)
      else run_step w x nested s inner (at_step i ∷ place) msg vars >>= after_step parts s later

  -- The steps of a segment from `i` on, of which `n` are left.
  unfoldable pub run_segment :
      Runner w → SpecParts → Option ℕ → Place → ℕ → ℕ → Steps (w.floats.F) → Msg w → Fields → Ran
  run_segment nested parts to_step place zero i steps msg vars = done (vars, continue msg)
  run_segment nested parts to_step place (suc n) i last_step msg vars = done (vars, continue msg)
  run_segment nested parts to_step place (suc n) i (step s inner rest) msg vars =
      if is_behind i to_step
      then done (vars, exit msg)
      else serial_step nested parts s inner rest i place msg vars
          (run_segment nested parts to_step place n (suc i) rest)

  -- `snapshot_body`: the message, whose body may have been read, and the copy of its body.
  abbrev copied : Option Body → Option (Option Body)
  copied none = none
  copied (some body) = some (some body)

  abbrev snapped : Msg w → Body × Result Bytes → Result (Msg w × Option (Option Body))
  snapped msg (body, err e) = err e
  snapped msg (body, ok raw) = ok (record msg { body = some body }, copied (clone_body body))

  abbrev snapshot_stream : Msg w → Body → Option ℕ → Result (Msg w × Option (Option Body))
  snapshot_stream msg body none = ok (msg, none)
  snapshot_stream msg body (some size) =
      if leb size x.limits.snapshot_threshold
      then snapped msg (materialize x.limits.materialize_cap body)
      else ok (msg, none)

  unfoldable pub snapshot_body : Msg w → Result (Msg w × Option (Option Body))
  snapshot_body msg = elim msg.body [
    | none ↦ ok (msg, some none)
    | some body ↦
        if is_stream body
        then snapshot_stream msg body body.size
        else ok (msg, copied (clone_body body))
  ]

  abbrev pub permits : Option EffectClass → Bool
  permits none = true
  permits (some e) = permits_retry e true

  -- `n` steps all permit a retry, under the keys that are derived for them.
  abbrev pub all_permit : ℕ → Steps (w.floats.F) → Bool
  all_permit zero steps = true
  all_permit (suc n) last_step = true
  all_permit (suc n) (step s inner rest) = permits (effect_class w.method_of s) && all_permit n rest

  abbrev pub max_attempts_of : Option (Option Body) → ℕ → Steps (w.floats.F) → ℕ
  max_attempts_of snapshot n steps =
      if is_some snapshot && (all_permit n steps && x.retry.enabled)
      then max x.retry.max_attempts 1
      else 1

  abbrev pub attempt_message : Msg w → Option (Option Body) → Msg w
  attempt_message msg none = msg
  attempt_message msg (some body) = clone_with_body msg body

  -- One attempt: the variables change for good unless it aborts and others were allowed.
  abbrev pub kept : Bool → Fields → Fields × Flow (Msg w) → Fields × Flow (Msg w)
  kept true before (vars, abort m) = (before, abort m)
  kept _ before r = r

  abbrev pub is_retried : Fields × Flow (Msg w) → Bool
  is_retried (vars, abort m) = retryable_status x.retry (status_or 500 m.status)
  is_retried _ = false

  -- The attempts from the `n`-th on, with `left` more allowed behind it; `segment` runs one.
  unfoldable pub run_attempts : (ℕ → Ran) → Bool → Fields → ℕ → ℕ → Ran
  run_attempts segment scratch vars n zero = segment n >>= λ r. done (kept scratch vars r)
  run_attempts segment scratch vars n (suc left) = segment n >>= λ r.
      if is_retried r
      then run_attempts segment scratch vars (suc n) left
      else done (kept scratch vars r)

  abbrev pub after_segment :
      Segment → Option ℕ → (Msg w → Fields → Ran) → Fields × Flow (Msg w) → Ran
  after_segment seg to_step later (vars, continue m) =
      if is_before to_step seg.end then done (vars, exit m) else later m vars
  after_segment seg to_step later (vars, exit m) = done (vars, exit m)
  after_segment seg to_step later (vars, abort m) = done (vars, abort m)

  abbrev pub one_attempt :
      Runner w
      → SpecParts
      → Option ℕ
      → Place
      → Steps (w.floats.F)
      → Segment
      → Msg w
      → Fields
      → ℕ
      → Ran
  one_attempt nested parts to_step place steps seg msg vars k =
      run_segment nested parts to_step (attempt k ∷ place) (seg.end - seg.start) seg.start
        (steps_from seg.start steps) msg vars

  unfoldable pub run_retried :
      Runner w
      → SpecParts
      → Option ℕ
      → Place
      → Steps (w.floats.F)
      → Segment
      → Fields
      → Msg w × Option (Option Body)
      → Ran
  unfolding run_attempts
  run_retried nested parts to_step place steps seg vars (msg, snapshot) =
      let most = max_attempts_of snapshot (seg.end - seg.start) (steps_from seg.start steps) in
      run_attempts
        (one_attempt nested parts to_step place steps seg (attempt_message msg snapshot) vars)
        (ltb 1 most) vars 1 (most - 1)

  unfoldable pub run_serial :
      Runner w
      → SpecParts
      → Option ℕ
      → Place
      → Steps (w.floats.F)
      → List Segment
      → Msg w
      → Fields
      → Ran
  unfolding run_retried snapshot_body
  run_serial nested parts to_step place steps [] msg vars = done (vars, continue msg)
  run_serial nested parts to_step place steps (seg ∷ segs) msg vars =
      let later = run_serial nested parts to_step place steps segs in
      lift (snapshot_body msg) >>= λ s.
      run_retried nested parts to_step place steps seg vars s >>= after_segment seg to_step later
