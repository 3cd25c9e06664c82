-- ===== src/Pipeline/Condition/Tests.antt =====
-- Conditions to parse and to evaluate.
use rs2_runtime.Common.{
  ℕ, ◌≡◌, ◌≢◌, refl, Bool, true, false, Option, none, some, [], compare, ◌==◌, not, if◌then◌else◌,
}
use rs2_runtime.Common.Text.{Text, lit, texts, text_eq}
use rs2_runtime.Common.Text.Order.{compare_text}
use rs2_runtime.Json.{
  Value, Fields, end, field, string, number, object, lookup, Number, pos_int, neg_int, float,
}
use rs2_runtime.Error.{Result, ok}
use rs2_runtime.Message.{Message, HeaderApi, get, external}
use rs2_runtime.Message.Headers.{header_list}
use rs2_runtime.Message.Url.{is_directory}
use rs2_runtime.Pipeline.Condition.{
  builtin, both, either, Condition, Numbers, eval, eval_builtin, evaluate, truthy, compare_values,
}
use rs2_runtime.Json.Equality.{value_eq}
use rs2_runtime.Pipeline.Condition.Parser.{
  Parsed, out_of_fuel, rejected, parsed, parse, expr, span, ident, var_path, lead_of, keyword_of,
}
use rs2_runtime.Pipeline.Condition.Accepted.{parse-evaluates}

-- Whole numbers only, which compare as they are.
abbrev magnitude : Number → ℕ
magnitude (pos_int n) = n
magnitude (neg_int n) = 0
magnitude (float n) = n

abbrev whole_numbers : Numbers
whole_numbers = record {
  is_nonzero = λ n. not (magnitude n == 0);
  partial_cmp = λ a b. some (compare (magnitude a) (magnitude b));
  number_eq = λ a b. magnitude a == magnitude b;
}

abbrev small_number : Text → Option Value
small_number t =
    if text_eq t (lit "200")
    then some (number (float 200))
    else if text_eq t (lit "400")
    then some (number (float 400))
    else none

abbrev msg : Message (header_list.Map)
msg = record {
  method = get;
  url = record { path = lit "/x"; query = []; base_path = []; service_path = lit "/x" };
  headers = header_list.insert (lit "x-mode") (lit "manage") header_list.empty;
  status = some 200;
  body = none;
  tenant = lit "t";
  principal = none;
  source = external;
  name = none;
  depth = 0;
}

abbrev vars : Fields
vars = field (lit "order") (object (field (lit "status") (string (lit "open")) end)) end

abbrev verdict_of : Parsed Condition → Option (Result Bool)
verdict_of (parsed c left) = some (evaluate whole_numbers header_list msg vars c)
verdict_of _ = none

abbrev run : Text → Option (Result Bool)
run source = verdict_of (parse small_number source)

unfoldable all_of : Unit {0}
unfolding texts parse expr span ident var_path lead_of keyword_of eval eval_builtin evaluate truthy
    compare_values value_eq compare_text is_directory lookup
all_of = tt

success : run (lit "ok") ≡ some (ok true)
unfolding all_of
success = refl

status_is : run (lit "status == 200") ≡ some (ok true)
unfolding all_of
status_is = refl

status_below : run (lit "status >= 400") ≡ some (ok false)
unfolding all_of
status_below = refl

variable_field : run (lit "!ok || $order.status == 'open'") ≡ some (ok true)
unfolding all_of
variable_field = refl

missing_variable : run (lit "$missing") ≡ some (ok false)
unfolding all_of
missing_variable = refl

grouping : run (lit "(header(\"x-mode\") == 'manage') && ok") ≡ some (ok true)
unfolding all_of
grouping = refl

no_operand : parse small_number (lit "status ==") ≡ rejected (lit "unexpected end of expression")
unfolding all_of
no_operand = refl

trailing :
    parse small_number (lit "status == 200 extra")
    ≡ rejected (lit "unexpected input at position 14")
unfolding all_of
trailing = refl

unterminated : parse small_number (lit "'unterminated") ≡ rejected (lit "unterminated string")
unfolding all_of
unterminated = refl

-- `&&` binds closer than `||`, and both associate to the left.
precedence :
    parse small_number (lit "ok || name && mime")
    ≡ parsed
        (record {
          expr = either (builtin (lit "ok")) (both (builtin (lit "name")) (builtin (lit "mime")));
          source = lit "ok || name && mime";
        })
        []
unfolding all_of
precedence = refl

parse-evaluates_example :
    (parse small_number (lit "!ok") ≢ out_of_fuel)
    × ((c : Condition) (left : Text)
        → parse small_number (lit "!ok") ≡ parsed c left
        → (numbers : Numbers) (api : HeaderApi) (m : Message (api.Map)) (scope : Fields)
        → (b : Bool) × (evaluate numbers api m scope c ≡ ok b))
parse-evaluates_example = parse-evaluates small_number (lit "!ok")
