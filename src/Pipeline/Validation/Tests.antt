-- ===== src/Pipeline/Validation/Tests.antt =====
-- Specs to validate.
use rs2_runtime.Common.{
  ℕ, ◌≡◌, refl, Bool, true, false, Option, none, some, List, [], ◌∷◌, if◌then◌else◌, not,
}
use rs2_runtime.Common.Text.{Text, lit, texts, text_eq, trim, is_empty}
use rs2_runtime.Json.{Value, string, object, end, field, number, float}
use rs2_runtime.Message.{Method, get, post}
use rs2_runtime.PathPattern.Parse.{
  split_str, parse_i64, parse_int, parse_opt_int, parse_index, require_empty, parse_url_sel,
  parse_expr, parse_token,
}
use rs2_runtime.PathPattern.Resolve.{validate, validate_from, unterminated}
use rs2_runtime.Pipeline.Spec.{
  serial, parallel, next, StepParts, SpecParts, PipelineSpec, spec, last_step, step, no_sub, sub,
}
use rs2_runtime.Pipeline.Condition.Parser.{parse, expr, span, ident, var_path, lead_of, keyword_of}
use rs2_runtime.Pipeline.Validation.{
  step_place, pattern_problems, template_problems, spec_problems, validate_spec,
}
use rs2_runtime.Pipeline.Validation.Sound.{IsSound, validate_spec-IsSound}

unfoldable all_of : Unit {0}
unfolding texts trim split_str parse_i64 parse_int parse_opt_int parse_index require_empty
    parse_url_sel parse_expr parse_token validate validate_from unterminated parse expr span ident
    var_path lead_of keyword_of step_place pattern_problems template_problems spec_problems
    validate_spec
all_of = tt

abbrev read_method : Text → Option Method
read_method t =
    if text_eq t (lit "GET") then some get else if text_eq t (lit "POST") then some post else none

abbrev is_header_name : Text → Bool
is_header_name t = not (is_empty t)

abbrev small_number : Text → Option Value
small_number t = if text_eq t (lit "200") then some (number (float 200)) else none

abbrev checked_expr : Text → Option Text
checked_expr t = if text_eq t (lit "$(") then some (lit "invalid JSONata expression") else none

abbrev blank : StepParts ℕ
blank = record {
  condition = none;
  call = none;
  transform = none;
  split = none;
  try_mode = false;
  elevate = false;
  capture = none;
  name = none;
  retry = none;
}

abbrev charge : StepParts ℕ
charge = record blank {
  condition = some (lit "status == 200");
  call = some (record {
    method = lit "POST";
    url = lit "/pay/${url.path[0]}";
    effect = none;
    headers = some ((lit "x-token", lit "${token?}") ∷ []);
  });
  capture = some (lit "$paid");
}

abbrev total : StepParts ℕ
total = record blank { transform = some (object (field (lit "total") (string (lit "$paid")) end)) }

abbrev plain : SpecParts
plain = record {
  mode = serial;
  on_fail = none;
  on_succeed = none;
  concurrency = none;
  joiner = none;
}

abbrev payment : PipelineSpec ℕ
payment =
    spec plain
      (step charge no_sub (step blank (sub (spec plain (step total no_sub last_step))) last_step))

abbrev problems : PipelineSpec ℕ → List Text
problems p = validate_spec read_method is_header_name small_number checked_expr p

payment_valid : problems payment ≡ []
unfolding all_of
payment_valid = refl

abbrev faulty : PipelineSpec ℕ
faulty =
    spec (record plain { mode = parallel; on_fail = some next })
      (step
        (record blank {
          condition = some (lit "status ==");
          capture = some (lit "x");
          elevate = true;
        })
        no_sub last_step)

each_problem :
    problems faulty
    ≡ lit ": parallel mode must stop on fail"
      ∷ lit "/steps[0]: a step must have exactly one of call/transform/pipeline/split"
      ∷ lit "/steps[0]: invalid condition 'status ==': unexpected end of expression"
      ∷ lit "/steps[0]: 'as' must name a variable starting with '$'"
      ∷ lit "/steps[0]: 'elevate' applies only to call steps"
      ∷ []
unfolding all_of
each_problem = refl

validate_spec-IsSound_example : IsSound read_method small_number payment
validate_spec-IsSound_example =
    validate_spec-IsSound read_method is_header_name small_number checked_expr payment payment_valid
