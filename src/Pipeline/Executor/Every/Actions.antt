-- ===== src/Pipeline/Executor/Every/Actions.antt =====
-- The requests of a step, of a split and of a parallel block.
use rs2_runtime.Common.{
  ℕ, suc, inl, inr, Bool-cases, Option, none, some, Option-cases, List, [], ◌∷◌, All, All-append,
  ltb, length,
}
use rs2_runtime.Common.Text.{Text}
use rs2_runtime.Error.{Result, ok, err}
use rs2_runtime.Json.{Value, Fields}
use rs2_runtime.Message.{Body}
use rs2_runtime.Message.Content.{as_json}
use rs2_runtime.Pipeline.Spec.{
  CallSpec, SpecParts, PipelineSpec, Steps, last_step, step, Sub, no_sub, sub,
}
use rs2_runtime.Pipeline.Segments.{count}
use rs2_runtime.Pipeline.Transform.{transform}
use rs2_runtime.Pipeline.Executor.Base.{
  World, Executor, Place, try_clone, materialize_if_needed, at_step, element, Sent, Msg,
}
use rs2_runtime.Pipeline.Executor.Log.{All-bind, All-lift}
use rs2_runtime.Pipeline.Executor.Call.{Step, run_call}
use rs2_runtime.Pipeline.Executor.Step.{
  Runner, input_of, eval_vars, run_sub, run_chosen, run_transform, transformed, shaped_by,
  step_condition_passes, run_step,
}
use rs2_runtime.Pipeline.Executor.Fanout.{
  all_sent, element_message, rest_spec, run_elements, split_elements, split_value, elements_of,
  run_split, no_steps,
}
use rs2_runtime.Pipeline.Executor.Parallel.{
  run_branches, check_fanout_budget, size_of, finished, run_parallel,
}
use rs2_runtime.Pipeline.Executor.Serial.{Ran}

-- A property of all the requests of a run, and of those of all that a runner of pipelines makes.
module _ (w : World) (x : Executor (w.floats.F)) (P : Sent (Msg w) → Type 0) where
  abbrev pub Silent : Ran w x → Type 0
  Silent r = All P r.0

  abbrev pub Nested : Runner w → Type 0
  Nested nested =
      (p : PipelineSpec (w.floats.F)) (place : Place) (msg : Msg w) (vars : Fields)
      → All P ((nested p place msg vars).0)

module _ (w : World) (x : Executor (w.floats.F)) (P : Sent (Msg w) → Type 0)
    (calls : (place : Place) (s : Step w x) (call : CallSpec) (msg : Msg w) (vars : Fields)
      → All P ((run_call w x place s call msg vars).0))
    (nested : Runner w) (inner_calls : Nested w x P nested) where
  run_sub-All :
      (i : Sub (w.floats.F)) (place : Place) (msg : Msg w) (vars : Fields)
      → All P ((run_sub w x nested i place msg vars).0)
  run_sub-All no_sub place msg vars = tt
  run_sub-All (sub p) place msg vars =
      All-bind P (nested p place msg vars) _ (inner_calls p place msg vars) λ a e. tt

  transformed-All :
      (c : Option Text) (msg : Msg w) (vars : Fields) (out : Value)
      → All P ((transformed w x c msg vars out).0)
  transformed-All (some c) msg vars out = tt
  transformed-All none msg vars out = All-lift P (shaped_by w x msg out) _ λ m e. tt

  run_transform-All :
      (s : Step w x) (t : Value) (msg : Msg w) (vars : Fields)
      → All P ((run_transform w x s t msg vars).0)
  unfolding run_transform
  run_transform-All s t msg vars = All-lift P (input_of w x msg) _ λ input e.
      All-lift P (transform w.jsonata w.codec.display t input.1 (eval_vars w x t input.0 vars)) _
        λ out k. transformed-All s.capture input.0 vars out

  run_chosen-All :
      (s : Step w x) (i : Sub (w.floats.F)) (place : Place) (msg : Msg w) (vars : Fields)
      (c : Option CallSpec) (t : Option Value)
      → All P ((run_chosen w x nested s i place msg vars c t).0)
  run_chosen-All s i place msg vars (some call) t = calls place s call msg vars
  run_chosen-All s i place msg vars none (some t) = run_transform-All s t msg vars
  run_chosen-All s i place msg vars none none = run_sub-All i place msg vars

  pub run_step-All :
      (s : Step w x) (i : Sub (w.floats.F)) (place : Place) (msg : Msg w) (vars : Fields)
      → All P ((run_step w x nested s i place msg vars).0)
  unfolding run_step
  run_step-All s i place msg vars = All-lift P (step_condition_passes w x s msg vars) _ λ passes e.
      elim (Bool-cases passes) [
        | inl passed ↦ rw passed (run_chosen-All s i place msg vars s.call s.transform)
        | inr misses ↦ rw misses tt
      ]

  run_elements-All :
      (parts : SpecParts) (rest : Steps (w.floats.F)) (place : Place) (msg : Msg w) (vars : Fields)
      (i : ℕ) (es : List (Text × Value))
      → All P (all_sent (run_elements w x nested parts rest place msg vars i es))
  unfolding run_elements
  run_elements-All parts rest place msg vars i [] = tt
  run_elements-All parts rest place msg vars i ((name, v) ∷ es) =
      let m = element_message w x msg name v in
      All-append P _ _
        (elim (Bool-cases (no_steps w x rest)) [
          | inl none_ ↦ rw none_ tt
          | inr some_ ↦
              rw some_ (inner_calls (rest_spec w x parts rest) (element name ∷ place) m vars)
        ])
        (run_elements-All parts rest place msg vars (suc i) es)

  split_elements-All :
      (parts : SpecParts) (rest : Steps (w.floats.F)) (place : Place) (msg : Msg w) (vars : Fields)
      (es : List (Text × Value))
      → All P ((split_elements w x nested parts rest place msg vars es).0)
  split_elements-All parts rest place msg vars es =
      elim (Bool-cases (ltb x.limits.max_fanout (length es))) [
        | inl many ↦ rw many tt
        | inr few ↦ rw few (run_elements-All parts rest place msg vars 0 es)
      ]

  split_value-All :
      (parts : SpecParts) (rest : Steps (w.floats.F)) (place : Place) (msg : Msg w) (vars : Fields)
      (r : Body × Result Value)
      → All P ((split_value w x nested parts rest place msg vars r).0)
  split_value-All parts rest place msg vars (body, err e) = tt
  split_value-All parts rest place msg vars (body, ok v) =
      split_elements-All parts rest place (record msg { body = some body }) vars (elements_of w x v)

  pub run_split-All :
      (parts : SpecParts) (rest : Steps (w.floats.F)) (place : Place) (msg : Msg w) (vars : Fields)
      → All P ((run_split w x nested parts rest place msg vars).0)
  unfolding run_split
  run_split-All parts rest place msg vars = elim (Option-cases msg.body) [
    | inl e ↦ rw e tt
    | inr (body, e) ↦
        rw e (
          split_value-All parts rest place msg vars (as_json w.codec x.limits.materialize_cap body))
  ]

  run_branches-All :
      (i : ℕ) (steps : Steps (w.floats.F)) (place : Place) (msg : Msg w) (vars : Fields)
      → All P (all_sent (finished w x (run_branches w x nested i steps place msg vars)))
  unfolding run_branches
  run_branches-All i last_step place msg vars = tt
  run_branches-All i (step s inner rest) place msg vars =
      All-append P _ _
        (elim (Option-cases (try_clone msg)) [
          | inl e ↦ rw e tt
          | inr (m, e) ↦ rw e (run_step-All s inner (at_step i ∷ place) m vars)
        ])
        (run_branches-All (suc i) rest place msg vars)

  pub run_parallel-All :
      (parts : SpecParts) (steps : Steps (w.floats.F)) (place : Place) (msg : Msg w) (vars : Fields)
      → All P ((run_parallel w x nested parts steps place msg vars).0)
  unfolding run_parallel
  run_parallel-All parts steps place msg vars =
      All-lift P (materialize_if_needed x.limits.materialize_cap msg) _ λ m e.
        All-lift P (check_fanout_budget w x (count steps) (size_of w x m.body)) _
          λ checked k. run_branches-All 0 steps place m vars
