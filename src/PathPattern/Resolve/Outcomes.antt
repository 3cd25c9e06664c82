-- ===== src/PathPattern/Resolve/Outcomes.antt =====
-- What a resolution gives, against what the validation of the pattern gives.
use rs2_runtime.Common.{
  ℕ, zero, suc, ◌<◌, ◌≡◌, ◌≢◌, ◌⊎◌, refl, inl, inr, Option, none, some, [], ◌∷◌, ◌++◌, length,
  Option-cases, Bool-cases, arith,
}
use rs2_runtime.Common.Text.{Text}
use rs2_runtime.Common.Fallible.{Fallible, failed, passed, Fallible-cases}
use rs2_runtime.Error.{ok, err, RsError}
use rs2_runtime.Json.{Value, Fields}
use rs2_runtime.PathPattern.Parse.{Expr, literal, url, data_path, ParsedToken, parse_token}
use rs2_runtime.PathPattern.Select.{UrlView}
use rs2_runtime.PathPattern.Resolve.{
  Run, out_of_fuel, returned, Token, push, opening, closing, in_pattern, unresolved, resolve,
  resolve_from, validate, validate_from, eval_expr, eval_parsed, eval_token, or_fallback, fallback,
}
use rs2_runtime.PathPattern.Resolve.Returns.{opening-lt, closing-lt, validate-ne-out_of_fuel}

-- The resolution gives a text, where the pattern is valid; or the error of the validation; or the
-- error that a placeholder resolves to nothing.
abbrev pub Agrees : Text → Run (Unit {0}) → Run Text → Type 0
Agrees pattern validated resolved =
    ((validated ≡ returned (ok tt)) × (s : Text) × (resolved ≡ returned (ok s)))
    ⊎ (((interior : Text) × (resolved ≡ returned (err (in_pattern pattern (unresolved interior)))))
        ⊎ ((e : RsError) × (validated ≡ returned (err e)) × (resolved ≡ returned (err e))))

module _ (display : Value → Text) (decode : Text → Text) (view : UrlView) (scope : Fields) where
  -- An expression that parses always has a value, which may be nothing.
  eval_expr-passes :
      (e : Expr) → (v : Option Text) × (eval_expr display decode e view scope ≡ passed v)
  unfolding eval_expr
  eval_expr-passes (literal s) = (_, refl)
  eval_expr-passes (data_path dotted) = (_, refl)
  eval_expr-passes (url sel) = (_, refl)

  abbrev Settled : Text → Fallible Token → Type 0
  Settled interior r = ((t : Token) × (r ≡ passed t)) ⊎ (r ≡ failed (unresolved interior))

  fallback-Settled :
      (interior : Text) (parsed : ParsedToken) (d : Option Expr)
      → Settled interior (fallback display decode interior parsed d view scope)
  fallback-Settled interior parsed (some e) =
      let (v, h) = eval_expr-passes e in rw h (inl (_, refl))
  fallback-Settled interior parsed none = elim (Bool-cases (parsed.optional)) [
    | inl marked ↦ rw marked (inl (_, refl))
    | inr plain ↦ rw plain (inr refl)
  ]

  or_fallback-Settled :
      (interior : Text) (parsed : ParsedToken) (v : Option Text)
      → Settled interior (or_fallback display decode interior parsed view scope v)
  or_fallback-Settled interior parsed none = fallback-Settled interior parsed parsed.default
  or_fallback-Settled interior parsed (some []) = fallback-Settled interior parsed parsed.default
  or_fallback-Settled interior parsed (some (c ∷ s)) = inl (_, refl)

  eval_parsed-Settled :
      (interior : Text) (parsed : ParsedToken)
      → Settled interior (eval_parsed display decode interior view scope parsed)
  unfolding eval_parsed
  eval_parsed-Settled interior parsed =
      let (v, h) = eval_expr-passes parsed.primary in rw h (or_fallback-Settled interior parsed v)

  module _ (pattern : Text) where
    resolve_from-Agrees :
        (fuel : ℕ) (out text : Text)
        → length text < fuel
        → Agrees pattern
            (validate_from pattern fuel text)
            (resolve_from display decode pattern view scope fuel out text)
    unfolding validate_from resolve_from eval_token
    resolve_from-Agrees zero out text h = absurd (omega arith)
    resolve_from-Agrees (suc fuel) out text h = elim (Option-cases (opening text)) [
      | inl nowhere ↦ rw nowhere (inl (refl, _, refl))
      | inr ((before, after), o) ↦ elim (Option-cases (closing after)) [
        | inl unclosed ↦ rw (o, unclosed) (inr (inr (_, refl, refl)))
        | inr ((interior, rest), c) ↦ elim (Fallible-cases (parse_token interior)) [
          | inl (e, f) ↦ rw (o, c, f) (inr (inr (_, refl, refl)))
          | inr (parsed, f) ↦ elim (eval_parsed-Settled interior parsed) [
            | inl (t, p) ↦
                rw (o, c, f, p)
                  (resolve_from-Agrees fuel (push (out ++ before) t) rest (
                    omega
                      (arith, opening-lt text before after o, closing-lt after interior rest c)))
            | inr p ↦ rw (o, c, f, p) (inr (inl (_, refl)))
          ]
        ]
      ]
    ]

Agrees-returned :
    (pattern : Text) {validated : Run (Unit {0})} {resolved : Run Text}
    → Agrees pattern validated resolved
    → resolved ≢ out_of_fuel
Agrees-returned pattern (inl (v, s, e)) out = ground arith
Agrees-returned pattern (inr (inl (interior, e))) out = ground arith
Agrees-returned pattern (inr (inr (failure, v, e))) out = ground arith

-- The resolution of a pattern gives a text, where the validation accepts the pattern; or the
-- error of the validation; or the error that one placeholder resolves to nothing: whatever the
-- URL and the data are.
pub resolve-Agrees :
    (display : Value → Text) (decode : Text → Text) (view : UrlView) (scope : Fields)
    (pattern : Text)
    → Agrees pattern (validate pattern) (resolve display decode pattern view scope)
unfolding validate resolve
resolve-Agrees display decode view scope pattern =
    resolve_from-Agrees display decode view scope pattern (suc (length pattern)) [] pattern
      (omega arith)

-- The validation of a pattern and its resolution return: the fuel, one unit more than the length
-- of the pattern, is enough.
pub resolve-returns :
    (display : Value → Text) (decode : Text → Text) (view : UrlView) (scope : Fields)
    (pattern : Text)
    → (validate pattern ≢ out_of_fuel) × (resolve display decode pattern view scope ≢ out_of_fuel)
resolve-returns display decode view scope pattern = (
  validate-ne-out_of_fuel pattern,
  Agrees-returned pattern (resolve-Agrees display decode view scope pattern),
)
