-- ===== src/Pipeline/Executor/Every/Segments.antt =====
-- The requests of a serial pipeline: of its steps, its segments and their attempts.
use rs2_runtime.Common.{
  ℕ, zero, suc, ◌-◌, inl, inr, Bool, true, false, Bool-cases, Option, List, [], ◌∷◌, All, is_some,
  ltb, if◌then◌else◌,
}
use rs2_runtime.Json.{Fields}
use rs2_runtime.Message.{Body}
use rs2_runtime.Pipeline.Spec.{
  CallSpec, Action, stop, next, finish, SpecParts, Steps, last_step, step, fail_action,
  succeed_action,
}
use rs2_runtime.Pipeline.Segments.{Segment}
use rs2_runtime.Pipeline.Executor.Base.{
  World, Executor, Place, at_step, attempt, Flow, continue, exit, abort, Sent, Msg,
}
use rs2_runtime.Pipeline.Executor.Log.{All-bind, All-lift}
use rs2_runtime.Pipeline.Executor.Call.{Step, run_call}
use rs2_runtime.Pipeline.Executor.Step.{Runner, step_condition_passes, run_step}
use rs2_runtime.Pipeline.Executor.Serial.{
  Ran, on_fail_next, on_succeed_next, after_step, has_failed, run_segment, is_behind, run_attempts,
  is_retried, run_retried, after_segment, run_serial, max_attempts_of, steps_from, one_attempt,
  attempt_message, is_before, snapshot_body,
}
use rs2_runtime.Pipeline.Executor.Every.Actions.{Silent, Nested, run_step-All, run_split-All}

module _ (w : World) (x : Executor (w.floats.F)) (P : Sent (Msg w) → Type 0)
    (calls : (place : Place) (s : Step w x) (call : CallSpec) (msg : Msg w) (vars : Fields)
      → All P ((run_call w x place s call msg vars).0))
    (nested : Runner w) (inner_calls : Nested w x P nested) where
  tail-All :
      (later : Msg w → Fields → Ran w x)
      (later_calls : (m : Msg w) (vs : Fields) → Silent w x P (later m vs)) (a b : Action)
      (vars : Fields) (out : Msg w) (failed : Bool)
      → Silent w x P (
          if failed
          then on_fail_next w x a vars out later
          else on_succeed_next w x b vars out later)
  tail-All later later_calls stop b vars out true = tt
  tail-All later later_calls finish b vars out true = tt
  tail-All later later_calls next b vars out true = later_calls out vars
  tail-All later later_calls a finish vars out false = tt
  tail-All later later_calls a stop vars out false = later_calls out vars
  tail-All later later_calls a next vars out false = later_calls out vars

  after_step-All :
      (parts : SpecParts) (s : Step w x) (later : Msg w → Fields → Ran w x)
      → ((m : Msg w) (vs : Fields) → Silent w x P (later m vs))
      → (r : Fields × Flow (Msg w)) → Silent w x P (after_step w x parts s later r)
  after_step-All parts s later h (vars, exit m) = tt
  after_step-All parts s later h (vars, abort m) = tt
  after_step-All parts s later h (vars, continue m) =
      tail-All later h (fail_action parts) (succeed_action parts) vars m (has_failed w x s m)

  run_segment-All :
      (parts : SpecParts) (to_step : Option ℕ) (place : Place) (n i : ℕ)
      (steps : Steps (w.floats.F)) (msg : Msg w) (vars : Fields)
      → Silent w x P (run_segment w x nested parts to_step place n i steps msg vars)
  unfolding run_segment
  run_segment-All parts to_step place zero i steps msg vars = tt
  run_segment-All parts to_step place (suc n) i last_step msg vars = tt
  run_segment-All parts to_step place (suc n) i (step s inner rest) msg vars =
      let later = run_segment w x nested parts to_step place n (suc i) rest in
      let later_calls = run_segment-All parts to_step place n (suc i) rest in
      elim (Bool-cases (is_behind i to_step)) [
        | inl behind ↦ rw behind tt
        | inr ahead ↦ elim (Bool-cases (is_some s.split)) [
          | inl splits ↦
              simp (ahead, splits)
                (All-lift P (step_condition_passes w x s msg vars) _ λ passes e.
                  elim (Bool-cases passes) [
                    | inl passed ↦
                        rw passed
                          (run_split-All w x P calls nested inner_calls parts rest place msg vars)
                    | inr misses ↦ rw misses (later_calls msg vars)
                  ])
          | inr plain ↦
              simp (ahead, plain)
                (All-bind P (run_step w x nested s inner (at_step i ∷ place) msg vars) _
                  (run_step-All w x P calls nested inner_calls s inner (at_step i ∷ place) msg vars)
                  λ a e. after_step-All parts s later later_calls a)
        ]
      ]

  run_attempts-All :
      (segment : ℕ → Ran w x)
      → ((k : ℕ) → Silent w x P (segment k))
      → (scratch : Bool) (vars : Fields) (n left : ℕ)
      → Silent w x P (run_attempts w x segment scratch vars n left)
  unfolding run_attempts
  run_attempts-All segment h scratch vars n zero = All-bind P (segment n) _ (h n) λ r e. tt
  run_attempts-All segment h scratch vars n (suc left) = All-bind P (segment n) _ (h n) λ r e.
      elim (Bool-cases (is_retried w x r)) [
        | inl again ↦ rw again (run_attempts-All segment h scratch vars (suc n) left)
        | inr settled ↦ rw settled tt
      ]

  run_retried-All :
      (parts : SpecParts) (to_step : Option ℕ) (place : Place) (steps : Steps (w.floats.F))
      (seg : Segment) (vars : Fields) (s : Msg w × Option (Option Body))
      → Silent w x P (run_retried w x nested parts to_step place steps seg vars s)
  unfolding run_retried
  run_retried-All parts to_step place steps seg vars (msg, snapshot) =
      let most = max_attempts_of w x snapshot (seg.end - seg.start) (steps_from seg.start steps) in
      run_attempts-All
        (one_attempt w x nested parts to_step place steps seg (attempt_message w x msg snapshot)
          vars)
        (λ k.
          run_segment-All parts to_step (attempt k ∷ place) (seg.end - seg.start) seg.start
            (steps_from seg.start steps) (attempt_message w x msg snapshot) vars)
        (ltb 1 most) vars 1 (most - 1)

  after_segment-All :
      (seg : Segment) (to_step : Option ℕ) (later : Msg w → Fields → Ran w x)
      → ((m : Msg w) (vs : Fields) → Silent w x P (later m vs))
      → (r : Fields × Flow (Msg w)) → Silent w x P (after_segment w x seg to_step later r)
  after_segment-All seg to_step later h (vars, exit m) = tt
  after_segment-All seg to_step later h (vars, abort m) = tt
  after_segment-All seg to_step later h (vars, continue m) =
      elim (Bool-cases (is_before to_step seg.end)) [
        | inl last ↦ rw last tt
        | inr more ↦ rw more (h m vars)
      ]

  pub run_serial-All :
      (parts : SpecParts) (to_step : Option ℕ) (place : Place) (steps : Steps (w.floats.F))
      (segs : List Segment) (msg : Msg w) (vars : Fields)
      → Silent w x P (run_serial w x nested parts to_step place steps segs msg vars)
  unfolding run_serial
  run_serial-All parts to_step place steps [] msg vars = tt
  run_serial-All parts to_step place steps (seg ∷ segs) msg vars =
      All-lift P (snapshot_body w x msg) _ λ s e.
        All-bind P (run_retried w x nested parts to_step place steps seg vars s) _
          (run_retried-All parts to_step place steps seg vars s)
          λ r k.
            after_segment-All seg to_step (run_serial w x nested parts to_step place steps segs)
              (run_serial-All parts to_step place steps segs) r
