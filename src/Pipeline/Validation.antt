-- ===== src/Pipeline/Validation.antt =====
-- The validation of a pipeline spec in rs2-core/src/pipeline/spec.rs: all the problems of a pipeline
-- and of those that it nests. The `http` crate's reading of methods and header names, the reading
-- of numbers, and the check of a JSONata expression are parameters. The runs that validate a pattern
-- or parse a condition do not come to the end of their fuel.
pub mod Sound
mod Tests
use rs2_runtime.Common.{
  ℕ, suc, ◌+◌, Bool, true, false, Option, none, some, List, [], ◌∷◌, ◌++◌, not, is_some, ◌==◌, ◌&&◌,
  if◌then◌else◌,
}
use rs2_runtime.Common.Text.{Text, lit, starts_with}
use rs2_runtime.Common.Text.Decimal.{decimal}
use rs2_runtime.Json.{Value, string, array, object, Items, nil, cons, Fields, end, field}
use rs2_runtime.Error.{Result, ok, err, validation_failed}
use rs2_runtime.Message.{Method}
use rs2_runtime.PathPattern.Resolve.{Run, out_of_fuel, returned, validate}
use rs2_runtime.Pipeline.Spec.{
  Mode, parallel, Action, stop, CallSpec, StepParts, SpecParts, PipelineSpec, spec, Steps,
  last_step, step, Sub, no_sub, sub,
}
use rs2_runtime.Pipeline.Condition.{Condition}
use rs2_runtime.Pipeline.Condition.Parser.{Parsed, rejected, parsed, parse}
use rs2_runtime.Pipeline.Condition.Parser

-- A problem, where a test finds one.
abbrev pub problem : Bool → Text → List Text
problem true e = e ∷ []
problem false e = []

-- Where step `i` stands.
unfoldable pub step_place : Text → ℕ → Text
step_place at i = at ++ (lit "/steps[" ++ (decimal i ++ lit "]"))

abbrev pub noted : Text → Text → Text
noted at e = at ++ (lit ": " ++ e)

abbrev pub one_if : Bool → ℕ
one_if true = 1
one_if false = 0

abbrev pub nests : {F : Type 0} → Sub F → Bool
nests no_sub = false
nests (sub p) = true

abbrev pub action_count : {F : Type 0} → StepParts F → Sub F → ℕ
action_count s nested =
    one_if (is_some s.call)
    + (one_if (is_some s.transform) + (one_if (nests nested) + one_if (is_some s.split)))

abbrev pub of_parsed : Text → Text → Parsed Condition → List Text
of_parsed at cond (rejected e) =
    noted at (lit "invalid condition '" ++ (cond ++ (lit "': " ++ e))) ∷ []
of_parsed at cond (parsed c left) = []
of_parsed at cond Parser.out_of_fuel = []

abbrev pub of_run : Text → Run (Unit {0}) → List Text
of_run prefix (returned (err e)) = (prefix ++ e.detail) ∷ []
of_run prefix (returned (ok u)) = []
of_run prefix out_of_fuel = []

unfoldable pub pattern_problems : Text → Text → List Text
pattern_problems prefix pattern = of_run prefix (validate pattern)

abbrev pub capture_problems : Text → Option Text → List Text
capture_problems at none = []
capture_problems at (some name) =
    problem (not (starts_with (lit "$") name))
      (noted at (lit "'as' must name a variable starting with '$'"))

abbrev pub is_parallel : Mode → Bool
is_parallel parallel = true
is_parallel _ = false

-- `is_some_and(|a| a != Action::Stop)` and `== Some(Action::Stop)`.
abbrev pub goes_on : Option Action → Bool
goes_on none = false
goes_on (some stop) = false
goes_on (some _) = true

abbrev pub stops : Option Action → Bool
stops (some stop) = true
stops _ = false

abbrev pub has_no_steps : {F : Type 0} → Steps F → Bool
has_no_steps last_step = true
has_no_steps (step s nested rest) = false

abbrev pub mode_problems : {F : Type 0} → Text → SpecParts → Steps F → List Text
mode_problems at parts steps =
    problem (has_no_steps steps) (noted at (lit "pipeline has no steps"))
    ++ (problem (is_parallel parts.mode && goes_on parts.on_fail)
          (noted at (lit "parallel mode must stop on fail"))
        ++ problem (stops parts.on_succeed)
            (noted at (lit "cannot stop on success or the pipeline always fails")))

module _ (validate_expr : Text → Option Text) where
  abbrev pub of_expr : Text → Option Text → List Text
  of_expr at none = []
  of_expr at (some e) = noted at e ∷ []

  -- The string leaves of a template are expressions.
  unfoldable mutual
    pub template_problems : Text → Value → List Text
    template_problems at (string expr) = of_expr at (validate_expr expr)
    template_problems at (object fields) = fields_problems at fields
    template_problems at (array items) = items_problems at items
    template_problems at _ = []

    pub fields_problems : Text → Fields → List Text
    fields_problems at end = []
    fields_problems at (field k v fs) = template_problems at v ++ fields_problems at fs

    pub items_problems : Text → Items → List Text
    items_problems at nil = []
    items_problems at (cons v vs) = template_problems at v ++ items_problems at vs

abbrev pub or_no_headers : Option (List (Text × Text)) → List (Text × Text)
or_no_headers none = []
or_no_headers (some headers) = headers

module _ (from_bytes : Text → Option Method) (is_header_name : Text → Bool) where
  abbrev pub header_problems : Text → List (Text × Text) → List Text
  header_problems at [] = []
  header_problems at ((name, value) ∷ headers) =
      problem (not (is_header_name name))
        (noted at (lit "invalid header name '" ++ (name ++ lit "'")))
      ++ (pattern_problems (at ++ (lit ": in header '" ++ (name ++ lit "': "))) value
          ++ header_problems at headers)

  abbrev pub call_problems : Text → Option CallSpec → List Text
  call_problems at none = []
  call_problems at (some c) =
      problem (not (is_some (from_bytes c.method)))
        (noted at (lit "invalid method '" ++ (c.method ++ lit "'")))
      ++ (pattern_problems (at ++ lit ": ") c.url ++ header_problems at (or_no_headers c.headers))

abbrev pub condition_problems : (Text → Option Value) → Text → Option Text → List Text
condition_problems parse_f64 at none = []
condition_problems parse_f64 at (some cond) = of_parsed at cond (parse parse_f64 cond)

abbrev pub transform_problems : (Text → Option Text) → Text → Option Value → List Text
transform_problems validate_expr at none = []
transform_problems validate_expr at (some template) = template_problems validate_expr at template

module _ (from_bytes : Text → Option Method) (is_header_name : Text → Bool)
    (parse_f64 : Text → Option Value) (validate_expr : Text → Option Text) {F : Type 0} where
  unfoldable mutual
    -- `validate_into`.
    pub spec_problems : Text → PipelineSpec F → List Text
    spec_problems at (spec parts steps) = mode_problems at parts steps ++ steps_problems at 0 steps

    pub steps_problems : Text → ℕ → Steps F → List Text
    steps_problems at i last_step = []
    steps_problems at i (step s nested rest) =
        let here = step_place at i in
        problem (not (action_count s nested == 1))
          (noted here (lit "a step must have exactly one of call/transform/pipeline/split"))
        ++ (condition_problems parse_f64 here s.condition
            ++ (capture_problems here s.capture
                ++ (call_problems from_bytes is_header_name here s.call
                    ++ (transform_problems validate_expr here s.transform
                        ++ (problem (s.elevate && not (is_some s.call))
                              (noted here (lit "'elevate' applies only to call steps"))
                            ++ (sub_problems here nested ++ steps_problems at (suc i) rest))))))

    pub sub_problems : Text → Sub F → List Text
    sub_problems at no_sub = []
    sub_problems at (sub p) = spec_problems at p

  -- `PipelineSpec::validate`.
  unfoldable pub validate_spec : PipelineSpec F → List Text
  validate_spec p = spec_problems [] p
