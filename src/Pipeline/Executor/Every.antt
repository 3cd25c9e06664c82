-- ===== src/Pipeline/Executor/Every.antt =====
-- What holds of every request of every call holds of every request of a run.
pub mod Actions
pub mod Segments
use rs2_runtime.Common.{
  ℕ, zero, suc, ◌-◌, inl, inr, Bool, true, false, Bool-cases, Option, none, some, Option-cases,
  List, [], ◌∷◌, All, All-append, is_some, ltb, length, if◌then◌else◌,
}
use rs2_runtime.Common.Text.{Text}
use rs2_runtime.Error.{Result, ok, err}
use rs2_runtime.Json.{Value, Fields, end}
use rs2_runtime.Message.{Body}
use rs2_runtime.Message.Content.{as_json}
use rs2_runtime.Pipeline.Spec.{
  CallSpec, Mode, serial, parallel, conditional, tee, tee_wait, Action, stop, next, finish,
  SpecParts, PipelineSpec, spec, Steps, last_step, step, Sub, no_sub, sub, fail_action,
  succeed_action,
}
use rs2_runtime.Pipeline.Segments.{Segment, count, plan}
use rs2_runtime.Pipeline.Transform.{transform}
use rs2_runtime.Pipeline.Executor.Base.{
  World, Executor, Place, try_clone, materialize_if_needed, at_step, element, attempt, Flow,
  continue, exit, abort, Sent, Msg,
}
use rs2_runtime.Pipeline.Executor.Log.{All-bind, All-lift}
use rs2_runtime.Pipeline.Executor.Call.{Step, run_call}
use rs2_runtime.Pipeline.Executor.Step.{
  Runner, input_of, eval_vars, run_sub, run_chosen, run_transform, transformed, shaped_by,
  step_condition_passes, run_step,
}
use rs2_runtime.Pipeline.Executor.Fanout.{
  all_sent, element_message, rest_spec, run_elements, split_elements, split_value, elements_of,
  run_split, no_steps,
}
use rs2_runtime.Pipeline.Executor.Parallel.{
  run_branches, check_fanout_budget, size_of, finished, run_parallel,
}
use rs2_runtime.Pipeline.Executor.Serial.{
  Ran, on_fail_next, on_succeed_next, after_step, has_failed, run_segment, is_behind, run_attempts,
  is_retried, run_retried, after_segment, run_serial, max_attempts_of, steps_from, one_attempt,
  attempt_message, is_before, snapshot_body,
}
use rs2_runtime.Pipeline.Executor.Run.{
  ending, tee_branch, copy_of, count_steps, bind_url, bind_user, run_conditional, run_tee, by_mode,
  run_pipeline, run,
}
use rs2_runtime.Pipeline.Executor.Every.Actions.{Silent, Nested, run_step-All, run_parallel-All}
use rs2_runtime.Pipeline.Executor.Every.Segments.{run_serial-All}

module _ (w : World) (x : Executor (w.floats.F)) (P : Sent (Msg w) → Type 0)
    (calls : (place : Place) (s : Step w x) (call : CallSpec) (msg : Msg w) (vars : Fields)
      → All P ((run_call w x place s call msg vars).0))
    (nested : Runner w) (inner_calls : Nested w x P nested) where
  ending-All : (r : Fields × Flow (Msg w)) → Silent w x P (ending w x r)
  ending-All (vars, continue m) = tt
  ending-All (vars, exit m) = tt
  ending-All (vars, abort m) = tt

  run_conditional-All :
      (i : ℕ) (steps : Steps (w.floats.F)) (place : Place) (msg : Msg w) (vars : Fields)
      → Silent w x P (run_conditional w x nested i steps place msg vars)
  unfolding run_conditional
  run_conditional-All i last_step place msg vars = tt
  run_conditional-All i (step s inner rest) place msg vars =
      All-lift P (step_condition_passes w x s msg vars) _ λ passes e. elim (Bool-cases passes) [
        | inl passed ↦ rw passed (
            All-bind P
              (run_step w x nested (record s { condition = none }) inner (at_step i ∷ place) msg
                vars)
              _
              (run_step-All w x P calls nested inner_calls (record s { condition = none }) inner
                (at_step i ∷ place) msg vars)
              λ r k. ending-All r)
        | inr misses ↦ rw misses (run_conditional-All (suc i) rest place msg vars)
      ]

  tee_branch-All :
      (mode : Mode) (branch : PipelineSpec (w.floats.F)) (place : Place) (m msg : Msg w)
      (vars : Fields)
      → Silent w x P (tee_branch w x mode nested branch place m msg vars)
  tee_branch-All tee_wait branch place m msg vars =
      All-bind P (nested branch place m vars) _ (inner_calls branch place m vars) λ r e. tt
  tee_branch-All tee branch place m msg vars = inner_calls branch place m end
  tee_branch-All serial branch place m msg vars = inner_calls branch place m end
  tee_branch-All parallel branch place m msg vars = inner_calls branch place m end
  tee_branch-All conditional branch place m msg vars = inner_calls branch place m end

  run_tee-All :
      (parts : SpecParts) (steps : Steps (w.floats.F)) (place : Place) (msg : Msg w) (vars : Fields)
      → Silent w x P (run_tee w x nested parts steps place msg vars)
  unfolding run_tee
  run_tee-All parts steps place msg vars =
      All-lift P (materialize_if_needed x.limits.materialize_cap msg) _ λ m e.
        All-lift P (copy_of w x m) _ λ branch_msg k.
          tee_branch-All parts.mode (spec (record parts { mode = serial }) steps) place branch_msg m
            vars

  by_mode-All :
      (mode : Mode) (parts : SpecParts) (to_step : Option ℕ) (steps : Steps (w.floats.F))
      (place : Place) (msg : Msg w) (vars : Fields)
      → Silent w x P (by_mode w x mode nested parts to_step steps place msg vars)
  by_mode-All serial parts to_step steps place msg vars =
      run_serial-All w x P calls nested inner_calls parts to_step place steps
        ((plan w.method_of (spec parts steps)).segments) msg vars
  by_mode-All parallel parts to_step steps place msg vars =
      run_parallel-All w x P calls nested inner_calls parts steps place msg vars
  by_mode-All conditional parts to_step steps place msg vars =
      run_conditional-All 0 steps place msg vars
  by_mode-All tee parts to_step steps place msg vars = run_tee-All parts steps place msg vars
  by_mode-All tee_wait parts to_step steps place msg vars = run_tee-All parts steps place msg vars

module _ (w : World) (x : Executor (w.floats.F)) (P : Sent (Msg w) → Type 0)
    (calls : (place : Place) (s : Step w x) (call : CallSpec) (msg : Msg w) (vars : Fields)
      → All P ((run_call w x place s call msg vars).0)) where
  run_pipeline-All : (left : ℕ) (to_step : Option ℕ) → Nested w x P (run_pipeline w x left to_step)
  unfolding run_pipeline
  run_pipeline-All zero to_step p place msg vars = tt
  run_pipeline-All (suc left) to_step (spec parts steps) place msg vars =
      by_mode-All w x P calls (run_pipeline w x left none) (run_pipeline-All left none) parts.mode
        parts to_step steps place msg vars

  pub run-All :
      (p : PipelineSpec (w.floats.F)) (msg : Msg w) (to_step : Option ℕ)
      → All P ((run w x p msg to_step).0)
  unfolding run
  run-All p msg to_step = elim (Bool-cases (ltb x.limits.max_steps (count_steps p))) [
    | inl many ↦ rw many tt
    | inr few ↦ rw few (
        All-bind P
          (run_pipeline w x (suc x.limits.max_depth) to_step p [] msg
            (bind_url w.decode msg.url (bind_user msg.principal x.initial_vars)))
          _ (run_pipeline-All (suc x.limits.max_depth) to_step p [] msg _) λ r e. tt)
  ]
