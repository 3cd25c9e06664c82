-- ===== src/Pipeline/Executor/Step.antt =====
-- `run_step` and `step_condition_passes` of rs2-core/src/pipeline/executor.rs: one step, whose nested
-- pipeline is run by a parameter.
use rs2_runtime.Common.{Bool, true, Option, none, some, List, [], ◌∷◌, if◌then◌else◌}
use rs2_runtime.Common.Text.{Text, lit}
use rs2_runtime.Error.{Result, ok, err, RsError, bad_request}
use rs2_runtime.Error.Problem.{put}
use rs2_runtime.Json.{Value, null, boolean, string, number, pos_int, object, Fields, end}
use rs2_runtime.Message.{Body, is_ok}
use rs2_runtime.Message.Content.{from_json, as_any, as_raw_string}
use rs2_runtime.Pipeline.Spec.{CallSpec, PipelineSpec, Sub, no_sub, sub}
use rs2_runtime.Pipeline.Condition.{Condition, evaluate}
use rs2_runtime.Pipeline.Condition.Parser.{Parsed, out_of_fuel, rejected, parsed, parse}
use rs2_runtime.Pipeline.Transform.{transform, mentions}
use rs2_runtime.Pipeline.Response.{detect, apply}
use rs2_runtime.Pipeline.Executor.Base.{
  World, Executor, Place, Flow, continue, exit, Exec, done, lift, ◌>>=◌, status_or, captured_name,
  Msg,
}
use rs2_runtime.Pipeline.Executor.Call.{Step, run_call}

-- A run of a pipeline from a message and variables, at a place.
abbrev pub Runner : (w : World) → Type 0
Runner w = PipelineSpec (w.floats.F) → Place → Msg w → Fields → Exec (Msg w) (Fields × Flow (Msg w))

module _ (w : World) (x : Executor (w.floats.F)) where
  -- The parser of conditions does not run out of fuel.
  abbrev pub parsed_condition : Parsed Condition → Result Condition
  parsed_condition out_of_fuel = err (bad_request [])
  parsed_condition (rejected e) = err (bad_request e)
  parsed_condition (parsed c left) = ok c

  abbrev pub condition_of : Result Condition → Msg w → Fields → Result Bool
  condition_of (err e) msg vars = err e
  condition_of (ok c) msg vars = evaluate w.numbers w.api msg vars c

  unfoldable pub step_condition_passes : Step w x → Msg w → Fields → Result Bool
  unfolding parse
  step_condition_passes step msg vars = elim step.condition [
    | none ↦ ok true
    | some c ↦ condition_of (parsed_condition (parse w.parse_f64 c)) msg vars
  ]

  abbrev with_content : Msg w → Body × Result Value → Result (Msg w × Value)
  with_content msg (body, err e) = err e
  with_content msg (body, ok v) = ok (record msg { body = some body }, v)

  abbrev pub input_of : Msg w → Result (Msg w × Value)
  input_of msg = elim msg.body [
    | none ↦ ok (msg, null)
    | some body ↦ with_content msg (as_any w.codec x.limits.materialize_cap body)
  ]

  abbrev pub raw_body : Value → Option Body → Option Text
  raw_body template none = none
  raw_body template (some body) =
      if mentions (lit "_rawBody") template
      then elim ((as_raw_string w.codec x.limits.materialize_cap body).1) [
        | err e ↦ none
        | ok t ↦ some t
      ]
      else none

  abbrev header_fields : List (Text × Text) → Fields → Fields
  header_fields [] fs = fs
  header_fields ((k, v) ∷ rest) fs = header_fields rest (put k (string v) fs)

  abbrev put_raw : Option Text → Fields → Fields
  put_raw none vars = vars
  put_raw (some raw) vars = put (lit "_rawBody") (string raw) vars

  abbrev pub eval_vars : Value → Msg w → Fields → Fields
  eval_vars template msg vars =
      put (lit "_headers") (object (header_fields (w.iter msg.headers) end)) (
        put_raw (raw_body template msg.body) (
          put (lit "_ok") (boolean (is_ok msg))
            (put (lit "_status") (number (pos_int (status_or 200 msg.status))) vars)))

  abbrev plain_body : Msg w → Value → Msg w
  plain_body msg out = record msg { body = some (from_json w.codec out); status = some 200 }

  -- A transform without a capture: a response directive, or the body.
  abbrev pub shaped_by : Msg w → Value → Result (Msg w)
  shaped_by msg out = elim (detect out) [
    | none ↦ ok (plain_body msg out)
    | some inner ↦ apply w.api w.is_name w.codec.display w.codec.encode inner msg
  ]

  abbrev pub transformed :
      Option Text → Msg w → Fields → Value → Exec (Msg w) (Fields × Flow (Msg w))
  transformed (some capture) msg vars out =
      done (put (captured_name capture) out vars, continue msg)
  transformed none msg vars out = lift (shaped_by msg out) >>= λ m. done (vars, continue m)

  unfoldable pub run_transform :
      Step w x → Value → Msg w → Fields → Exec (Msg w) (Fields × Flow (Msg w))
  run_transform step template msg vars = lift (input_of msg) >>= λ input.
      lift (transform w.jsonata w.codec.display template input.1 (eval_vars template input.0 vars))
      >>= λ out. transformed step.capture input.0 vars out

  -- The `end` of a nested pipeline is local to it.
  abbrev pub local_end : Flow (Msg w) → Flow (Msg w)
  local_end (exit m) = continue m
  local_end flow = flow

  abbrev no_action : RsError
  no_action = bad_request (lit "step has no action (call/transform/pipeline/split)")

  abbrev pub run_sub :
      Runner w → Sub (w.floats.F) → Place → Msg w → Fields → Exec (Msg w) (Fields × Flow (Msg w))
  run_sub nested no_sub place msg vars = lift (err no_action)
  run_sub nested (sub p) place msg vars = nested p place msg vars >>= λ r. done (r.0, local_end r.1)

  -- A step whose condition passes, by its call and its transform.
  abbrev pub run_chosen :
      Runner w
      → Step w x
      → Sub (w.floats.F)
      → Place
      → Msg w
      → Fields
      → Option CallSpec
      → Option Value
      → Exec (Msg w) (Fields × Flow (Msg w))
  run_chosen nested step s place msg vars (some call) template =
      run_call w x place step call msg vars
  run_chosen nested step s place msg vars none (some template) =
      run_transform step template msg vars
  run_chosen nested step s place msg vars none none = run_sub nested s place msg vars

  abbrev pub run_action :
      Runner w
      → Step w x
      → Sub (w.floats.F)
      → Place
      → Msg w
      → Fields
      → Exec (Msg w) (Fields × Flow (Msg w))
  run_action nested step s place msg vars =
      run_chosen nested step s place msg vars step.call step.transform

  unfoldable pub run_step :
      Runner w
      → Step w x
      → Sub (w.floats.F)
      → Place
      → Msg w
      → Fields
      → Exec (Msg w) (Fields × Flow (Msg w))
  unfolding step_condition_passes
  run_step nested step s place msg vars = lift (step_condition_passes step msg vars) >>= λ passes.
      if passes then run_action nested step s place msg vars else done (vars, continue msg)
