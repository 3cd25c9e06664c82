-- ===== src/PathPattern/Resolve.antt =====
-- The loops over the placeholders of a pattern: its resolution and its validation. They run on
-- fuel, one unit for each placeholder.
pub mod Returns
pub mod Outcomes
use rs2_runtime.Common.{
  ℕ, zero, suc, ◌+◌, Bool, true, false, Option, none, some, [], ◌∷◌, ◌++◌, length, reverse,
  if◌then◌else◌,
}
use rs2_runtime.Common.Text.{Text, lit, is_empty, split_once, ends_with, trim_end_matches}
use rs2_runtime.Common.Fallible.{Fallible, failed, passed, ◌>>=◌}
use rs2_runtime.Error.{Result, ok, err, RsError, bad_request}
use rs2_runtime.Json.{Value, Fields}
use rs2_runtime.PathPattern.Parse.{
  Expr, literal, url, data_path, ParsedToken, parse_token, split_str, quoted,
}
use rs2_runtime.PathPattern.Select.{UrlView, eval_url, eval_data}

pub data Token : Type 0 where
  value : Text → Token
  elide : Token

-- What a loop on fuel gives: it has run out, or it returns.
pub data Run (T : Type 0) : Type 0 where
  out_of_fuel : Run T
  returned : Result T → Run T

unfoldable pub unterminated : Text → RsError
unterminated pattern = bad_request (lit "unterminated ${…} in '" ++ (pattern ++ lit "'"))

unfoldable pub in_pattern : Text → Text → RsError
in_pattern pattern e = bad_request (lit "in pattern '" ++ (pattern ++ (lit "': " ++ e)))

-- What is before and after the next `${`, and before and after the next `}`.
abbrev pub opening : Text → Option (Text × Text)
opening text = split_str (lit "${") text

abbrev pub closing : Text → Option (Text × Text)
closing text = split_once b'}' text

abbrev pub pop : Text → Text
pop [] = []
pop (c ∷ []) = []
pop (c ∷ d ∷ s) = c ∷ pop (d ∷ s)

-- An elision takes away a slash just before it.
abbrev pub push : Text → Token → Text
push out (value s) = out ++ s
push out elide = if ends_with (lit "/") out then pop out else out

unfoldable pub unresolved : Text → Text
unresolved interior =
    quoted interior (lit " resolved to nothing (mark it optional with `?` or give a `|| default`)")

module _ (display : Value → Text) (decode : Text → Text) where
  unfoldable pub eval_expr : Expr → UrlView → Fields → Fallible (Option Text)
  eval_expr (literal s) view scope = passed (some s)
  eval_expr (data_path dotted) view scope = passed (eval_data display dotted scope)
  eval_expr (url sel) view scope = passed (eval_url decode sel view)

  abbrev pub text_or_empty : Option Text → Text
  text_or_empty none = []
  text_or_empty (some s) = s

  abbrev pub fallback : Text → ParsedToken → Option Expr → UrlView → Fields → Fallible Token
  fallback interior parsed (some e) view scope =
      eval_expr e view scope >>= λ v. passed (value (text_or_empty v))
  fallback interior parsed none view scope =
      if parsed.optional then passed elide else failed (unresolved interior)

  abbrev pub or_fallback : Text → ParsedToken → UrlView → Fields → Option Text → Fallible Token
  or_fallback interior parsed view scope (some (c ∷ s)) = passed (value (c ∷ s))
  or_fallback interior parsed view scope _ = fallback interior parsed parsed.default view scope

  unfoldable pub eval_parsed : Text → UrlView → Fields → ParsedToken → Fallible Token
  unfolding eval_expr
  eval_parsed interior view scope parsed =
      eval_expr parsed.primary view scope >>= or_fallback interior parsed view scope

  unfoldable pub eval_token : Text → UrlView → Fields → Fallible Token
  eval_token interior view scope = parse_token interior >>= eval_parsed interior view scope

  module _ (pattern : Text) (view : UrlView) (scope : Fields) where
    -- One turn of the loop, which goes on at `next` with the output and the rest.
    abbrev pub resolve_token : (Text → Text → Run Text) → Text → Text → Fallible Token → Run Text
    resolve_token next out after (failed e) = returned (err (in_pattern pattern e))
    resolve_token next out after (passed token) = next (push out token) after

    abbrev pub resolve_closed : (Text → Text → Run Text) → Text → Option (Text × Text) → Run Text
    resolve_closed next out none = returned (err (unterminated pattern))
    resolve_closed next out (some (interior, after)) =
        resolve_token next out after (eval_token interior view scope)

    abbrev pub resolve_opened :
        (Text → Text → Run Text) → Text → Text → Option (Text × Text) → Run Text
    resolve_opened next out text none = returned (ok (out ++ text))
    resolve_opened next out text (some (before, after)) =
        resolve_closed next (out ++ before) (closing after)

    unfoldable pub resolve_from : ℕ → Text → Text → Run Text
    resolve_from zero out text = out_of_fuel
    resolve_from (suc fuel) out text = resolve_opened (resolve_from fuel) out text (opening text)

    unfoldable pub resolve : Run Text
    resolve = resolve_from (suc (length pattern)) [] pattern

module _ (pattern : Text) where
  abbrev pub validate_token : (Text → Run (Unit {0})) → Text → Fallible ParsedToken → Run (Unit {0})
  validate_token next after (failed e) = returned (err (in_pattern pattern e))
  validate_token next after (passed parsed) = next after

  abbrev pub validate_closed : (Text → Run (Unit {0})) → Option (Text × Text) → Run (Unit {0})
  validate_closed next none = returned (err (unterminated pattern))
  validate_closed next (some (interior, after)) = validate_token next after (parse_token interior)

  abbrev pub validate_opened : (Text → Run (Unit {0})) → Option (Text × Text) → Run (Unit {0})
  validate_opened next none = returned (ok tt)
  validate_opened next (some (before, after)) = validate_closed next (closing after)

  unfoldable pub validate_from : ℕ → Text → Run (Unit {0})
  validate_from zero text = out_of_fuel
  validate_from (suc fuel) text = validate_opened (validate_from fuel) (opening text)

  unfoldable pub validate : Run (Unit {0})
  validate = validate_from (suc (length pattern)) pattern
