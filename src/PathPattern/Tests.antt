-- ===== src/PathPattern/Tests.antt =====
-- Patterns to run, and the theorems at them.
use rs2_runtime.Common.{◌≡◌, refl, if◌then◌else◌, some, List, [], ◌∷◌}
use rs2_runtime.Common.Text.{Text, lit, texts, text_eq, trim}
use rs2_runtime.Error.{ok, err}
use rs2_runtime.Json.{Fields, end, field, string, object, lookup}
use rs2_runtime.PathPattern.Parse.{
  split_str, parse_i64, parse_int, parse_opt_int, parse_index, require_empty, parse_url_sel,
  parse_expr, parse_token,
}
use rs2_runtime.PathPattern.Select.{
  UrlView, norm_index, norm_bound, join_nonempty, slice_of, pick, query_get, eval_url, eval_data,
}
use rs2_runtime.PathPattern.Resolve.{
  Run, returned, resolve, validate, resolve_from, validate_from, eval_expr, eval_parsed, eval_token,
  unterminated, in_pattern, unresolved,
}
use rs2_runtime.PathPattern.Resolve.Outcomes.{Agrees, resolve-Agrees}

abbrev three : List Text
three = lit "xyz" ∷ lit "qqq" ∷ lit "abc" ∷ []

abbrev view : UrlView
view = record {
  path_segments = three;
  base_segments = lit "files" ∷ [];
  view_name = some (lit "abc");
  query = lit "id=7&page=";
  remainder = lit "/xyz/qqq/abc";
}

abbrev order : Fields
order = field (lit "order") (object (field (lit "customerId") (string (lit "c9")) end)) end

abbrev run : Text → Run Text
run pattern = resolve (λ v. lit "?") (λ t. t) pattern view order

-- A name to unfold the run by.
unfoldable all_of : Unit {0}
unfolding texts trim split_str parse_i64 parse_int parse_opt_int parse_index require_empty
    parse_url_sel parse_expr parse_token norm_index norm_bound join_nonempty slice_of pick query_get
    eval_url eval_data resolve validate resolve_from validate_from eval_expr eval_parsed eval_token
    unterminated in_pattern unresolved lookup
all_of = tt

second_segment : run (lit "a/${url.path[1]}/b") ≡ returned (ok (lit "a/qqq/b"))
unfolding all_of
second_segment = refl

last_segment : run (lit "a/${url.path[-1]}/b") ≡ returned (ok (lit "a/abc/b"))
unfolding all_of
last_segment = refl

tail_slice : run (lit "${url.path[1:]}") ≡ returned (ok (lit "qqq/abc"))
unfolding all_of
tail_slice = refl

head_slice : run (lit "${url.path[:2]}") ≡ returned (ok (lit "xyz/qqq"))
unfolding all_of
head_slice = refl

whole_section : run (lit "${url.full}") ≡ returned (ok (lit "files/xyz/qqq/abc"))
unfolding all_of
whole_section = refl

elided : run (lit "a/${url.path[5]?}/b") ≡ returned (ok (lit "a/b"))
unfolding all_of
elided = refl

defaulted : run (lit "p=${url.query.page || '1'}") ≡ returned (ok (lit "p=1"))
unfolding all_of
defaulted = refl

dotted : run (lit "/c/${order.customerId}") ≡ returned (ok (lit "/c/c9"))
unfolding all_of
dotted = refl

unknown_section :
    validate (lit "${url.nope}")
    ≡ returned (err (in_pattern (lit "${url.nope}") (lit "'url.nope': unknown url section 'nope'")))
unfolding all_of
unknown_section = refl

not_closed : validate (lit "a${x") ≡ returned (err (unterminated (lit "a${x")))
unfolding all_of
not_closed = refl

resolve-Agrees_example :
    Agrees
      (lit "a/${url.path[7]}")
      (validate (lit "a/${url.path[7]}"))
      (run (lit "a/${url.path[7]}"))
resolve-Agrees_example = resolve-Agrees (λ v. lit "?") (λ t. t) view order (lit "a/${url.path[7]}")

-- A `%2B` in the query is a plus sign, which is then turned into a space.
plus_sign :
    query_get (λ t. if text_eq t (lit "1%2B2") then lit "1+2" else t) (lit "q=1%2B2") (lit "q")
    ≡ some (lit "1 2")
unfolding all_of
plus_sign = refl

-- Bars within a quoted literal end the first alternative, too.
quoted_bars : run (lit "${'a||b'}") ≡ returned (ok [])
unfolding all_of
quoted_bars = refl

quoted_bars_resolved : run (lit "${x || 'a||b'}") ≡ returned (ok (lit "a||b"))
unfolding all_of
quoted_bars_resolved = refl
