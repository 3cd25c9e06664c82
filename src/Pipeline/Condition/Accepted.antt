-- ===== src/Pipeline/Condition/Accepted.antt =====
-- The parser of conditions returns, and what it accepts is evaluated without an error.
use rs2_runtime.Common.{
  ℕ, zero, suc, ◌+◌, ◌*◌, ◌<◌, ◌≡◌, ◌≢◌, refl, subst, any-eq-true, inl, inr, Bool, true, Option, [],
  ◌∷◌, length, Bool-cases, arith,
}
use rs2_runtime.Common.Text.{Text, lit, contains, text_eq, text_eq_iff}
use rs2_runtime.Json.{Value, Fields}
use rs2_runtime.Error.{Result, ok}
use rs2_runtime.Message.{Message, HeaderApi}
use rs2_runtime.Pipeline.Condition.{
  Expr, literal, builtin, var, header_of, negated, both, either, comparison, builtins, Condition,
  Numbers, eval, eval_builtin, evaluate, truthy,
}
use rs2_runtime.Pipeline.Condition.Parser.{
  Parsed, out_of_fuel, rejected, parsed, skip_ws, eat, operator, is_bang, primary, cmp, unary,
  and_expr, and_loop, expr, or_loop, finish, parse,
}
use rs2_runtime.Pipeline.Condition.Progress.{Good, Good-le, Good-bind, length-skip_ws, eat-lt}
use rs2_runtime.Pipeline.Condition.Readers.{
  Known, primary_at-Good, operator-lt, compare_with-Good, loop_with-Good, is_bang-lt,
  unary_with-Good,
}

module _ (parse_f64 : Text → Option Value) where
  -- The fuel that each reader needs at a text.
  mutual
    unfolding primary cmp unary and_expr and_loop expr or_loop

    primary-Good :
        (f : ℕ) (s : Text) → 6 * length s < f → Good Known (length s) (primary parse_f64 f s)
    primary-Good zero s h = absurd (omega arith)
    primary-Good (suc f) s h =
        let le = length-skip_ws s in
        primary_at-Good parse_f64 f (length s) (expr parse_f64 f) (primary parse_f64 f) (skip_ws s)
          (omega arith) le (λ t lt. expr-Good f t (omega arith))
          (λ t lt. primary-Good f t (omega arith))

    cmp-Good : (f : ℕ) (s : Text) → 6 * length s + 1 < f → Good Known (length s) (cmp parse_f64 f s)
    cmp-Good zero s h = absurd (omega arith)
    cmp-Good (suc f) s h =
        Good-bind Known Known (length s) (length s) (primary parse_f64 f s) _
          (primary-Good f s (omega arith))
          λ l left k lt.
            let le = length-skip_ws left in
            compare_with-Good (length s) (primary parse_f64 f) l (skip_ws left)
              (operator (skip_ws left)) k (omega arith) (operator-lt (skip_ws left))
              (λ t lt2. primary-Good f t (omega arith))

    unary-Good :
        (f : ℕ) (s : Text) → 6 * length s + 2 < f → Good Known (length s) (unary parse_f64 f s)
    unary-Good zero s h = absurd (omega arith)
    unary-Good (suc f) s h =
        let le = length-skip_ws s in
        unary_with-Good (length s) (unary parse_f64 f) (cmp parse_f64 f) (skip_ws s)
          (is_bang (skip_ws s)) le (λ left e. omega (arith, is_bang-lt (skip_ws s) left e))
          (λ t lt. unary-Good f t (omega arith)) (λ t lt. cmp-Good f t (omega arith))

    and_expr-Good :
        (f : ℕ) (s : Text) → 6 * length s + 3 < f → Good Known (length s) (and_expr parse_f64 f s)
    and_expr-Good zero s h = absurd (omega arith)
    and_expr-Good (suc f) s h =
        Good-bind Known Known (length s) (length s) (unary parse_f64 f s) _
          (unary-Good f s (omega arith))
          λ l left k lt.
            Good-le Known (suc (length left)) (length s) _ (and_loop-Good f l left k (omega arith))
              (omega arith)

    and_loop-Good :
        (f : ℕ) (l : Expr) (s : Text)
        → Known l
        → 6 * length s < f
        → Good Known (suc (length s)) (and_loop parse_f64 f l s)
    and_loop-Good zero l s k h = absurd (omega arith)
    and_loop-Good (suc f) l s k h =
        loop_with-Good (length s) (unary parse_f64 f) (and_loop parse_f64 f) both l (skip_ws s)
          (eat (lit "&&") s) (λ a b p q. (p, q)) k (length-skip_ws s) (eat-lt b'&' (lit "&") s)
          (λ t lt. unary-Good f t (omega arith)) (λ e t p lt. and_loop-Good f e t p (omega arith))

    expr-Good :
        (f : ℕ) (s : Text) → 6 * length s + 4 < f → Good Known (length s) (expr parse_f64 f s)
    expr-Good zero s h = absurd (omega arith)
    expr-Good (suc f) s h =
        Good-bind Known Known (length s) (length s) (and_expr parse_f64 f s) _
          (and_expr-Good f s (omega arith))
          λ l left k lt.
            Good-le Known (suc (length left)) (length s) _ (or_loop-Good f l left k (omega arith))
              (omega arith)

    or_loop-Good :
        (f : ℕ) (l : Expr) (s : Text)
        → Known l
        → 6 * length s < f
        → Good Known (suc (length s)) (or_loop parse_f64 f l s)
    or_loop-Good zero l s k h = absurd (omega arith)
    or_loop-Good (suc f) l s k h =
        loop_with-Good (length s) (and_expr parse_f64 f) (or_loop parse_f64 f) either l (skip_ws s)
          (eat (lit "||") s) (λ a b p q. (p, q)) k (length-skip_ws s) (eat-lt b'|' (lit "|") s)
          (λ t lt. and_expr-Good f t (omega arith)) (λ e t p lt. or_loop-Good f e t p (omega arith))

module _ (numbers : Numbers) (api : HeaderApi) (msg : Message (api.Map)) (vars : Fields) where
  abbrev Succeeds : Result Value → Type 0
  Succeeds r = (v : Value) × (r ≡ ok v)

  eval_builtin-Succeeds :
      (name : Text)
      → contains builtins name ≡ true
      → Succeeds (eval_builtin numbers api msg vars name)
  unfolding eval_builtin text_eq
  eval_builtin-Succeeds name h =
      let (a, m, e) = any-eq-true (λ t. text_eq t name) builtins h in
      let same : a ≡ name = (text_eq_iff a name).0 e in
      subst (λ t. Succeeds (eval_builtin numbers api msg vars t)) same
        (elim m [
          | inl e ↦ rw e (_, refl)
          | inr (inl e) ↦ rw e (_, refl)
          | inr (inr (inl e)) ↦ rw e (_, refl)
          | inr (inr (inr (inl e))) ↦ rw e (_, refl)
          | inr (inr (inr (inr (inl e)))) ↦ rw e (_, refl)
          | inr (inr (inr (inr (inr (inl e))))) ↦ rw e (_, refl)
          | inr (inr (inr (inr (inr (inr (inl e)))))) ↦ rw e (_, refl)
          | inr (inr (inr (inr (inr (inr (inr (inl e))))))) ↦ rw e (_, refl)
          | inr (inr (inr (inr (inr (inr (inr (inr (inl e)))))))) ↦ rw e (_, refl)
          | inr (inr (inr (inr (inr (inr (inr (inr (inr x)))))))) ↦ elim x [ ]
        ])

  eval-Succeeds : (e : Expr) → Known e → Succeeds (eval numbers api msg vars e)
  unfolding eval
  eval-Succeeds (literal v) k = (_, refl)
  eval-Succeeds (builtin name) k = eval_builtin-Succeeds name k
  eval-Succeeds (var name path) k = (_, refl)
  eval-Succeeds (header_of name) k = (_, refl)
  eval-Succeeds (negated e) k = let (v, h) = eval-Succeeds e k in rw h (_, refl)
  eval-Succeeds (both l r) (kl, kr) =
      let (v, h) = eval-Succeeds l kl in
      let (w, g) = eval-Succeeds r kr in
      elim (Bool-cases (truthy numbers v)) [
        | inl hit ↦ rw (h, g, hit) (_, refl)
        | inr miss ↦ rw (h, g, miss) (_, refl)
      ]
  eval-Succeeds (either l r) (kl, kr) =
      let (v, h) = eval-Succeeds l kl in
      let (w, g) = eval-Succeeds r kr in
      elim (Bool-cases (truthy numbers v)) [
        | inl hit ↦ rw (h, g, hit) (_, refl)
        | inr miss ↦ rw (h, g, miss) (_, refl)
      ]
  eval-Succeeds (comparison l op r) (kl, kr) =
      let (v, h) = eval-Succeeds l kl in let (w, g) = eval-Succeeds r kr in rw (h, g) (_, refl)

  evaluate-Succeeds :
      (c : Condition) → Known c.expr → (b : Bool) × (evaluate numbers api msg vars c ≡ ok b)
  unfolding evaluate
  evaluate-Succeeds c k = let (v, h) = eval-Succeeds c.expr k in rw h (_, refl)

finish-Good :
    (source : Text) (e : Expr) (s : Text)
    → Known e
    → Good (λ c. Known c.expr) (suc (length s)) (finish source e s)
finish-Good source e [] k = (k, omega arith)
finish-Good source e (c ∷ s) k = tt

parse-Good :
    (parse_f64 : Text → Option Value) (source : Text)
    → Good (λ c. Known c.expr) (suc (length source)) (parse parse_f64 source)
unfolding parse
parse-Good parse_f64 source =
    Good-bind Known (λ c. Known c.expr) (length source) (suc (length source))
      (expr parse_f64 (6 * length source + 5) source) _
      (expr-Good parse_f64 (6 * length source + 5) source (omega arith))
      λ e left k lt.
        Good-le (λ c. Known c.expr) (suc (length (skip_ws left))) (suc (length source)) _
          (finish-Good source e (skip_ws left) k) (omega (arith, length-skip_ws left))

-- What the parser accepts is known.
Good-parsed :
    {T : Type 0} (P : T → Type 0) (n : ℕ) (r : Parsed T)
    → Good P n r
    → (r ≢ out_of_fuel) × ((v : T) (left : Text) → r ≡ parsed v left → P v)
Good-parsed P n out_of_fuel g = absurd g
Good-parsed P n (rejected e) g = (λ h. absurd (ground arith), λ v left h. absurd (ground arith))
Good-parsed P n (parsed w rest) g =
    (λ h. absurd (ground arith), λ v left h. let same : w ≡ v = cc h in subst P same g.0)

-- The parser of conditions returns on every text, and a condition that it accepts is evaluated to
-- a truth value on every message and all variables, and never fails.
pub parse-evaluates :
    (parse_f64 : Text → Option Value) (source : Text)
    → (parse parse_f64 source ≢ out_of_fuel)
      × ((c : Condition) (left : Text)
          → parse parse_f64 source ≡ parsed c left
          → (numbers : Numbers) (api : HeaderApi) (msg : Message (api.Map)) (vars : Fields)
          → (b : Bool) × (evaluate numbers api msg vars c ≡ ok b))
parse-evaluates parse_f64 source =
    let (returns, known) =
      Good-parsed (λ c. Known c.expr) (suc (length source)) (parse parse_f64 source)
        (parse-Good parse_f64 source) in
    (
      returns,
      λ c left e numbers api msg vars. evaluate-Succeeds numbers api msg vars c (known c left e),
    )
