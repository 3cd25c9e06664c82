-- ===== src/Pipeline/Validation/Sound.antt =====
-- What a spec without problems is good for when it runs.
use rs2_runtime.Common.{
  ℕ, suc, ◌≡◌, ◌≢◌, ◌⊎◌, refl, inl, inr, Bool, true, false, Option, none, some, List, [], ◌∷◌, not,
  is_some, ◌&&◌, ◌==◌, All, append-eq-nil, arith,
}
use rs2_runtime.Common.Text.{Text}
use rs2_runtime.Json.{Value, Fields}
use rs2_runtime.Error.{ok, err}
use rs2_runtime.Message.{Method, Message, HeaderApi}
use rs2_runtime.PathPattern.Select.{UrlView}
use rs2_runtime.PathPattern.Resolve.{
  Run, out_of_fuel, returned, resolve, validate, in_pattern, unresolved,
}
use rs2_runtime.PathPattern.Resolve.Outcomes.{Agrees, resolve-Agrees, resolve-returns}
use rs2_runtime.Pipeline.Spec.{
  CallSpec, PipelineSpec, spec, Steps, last_step, step, Sub, no_sub, sub,
}
use rs2_runtime.Pipeline.Condition.{Condition, Numbers, evaluate}
use rs2_runtime.Pipeline.Condition.Parser.{Parsed, rejected, parsed, parse}
use rs2_runtime.Pipeline.Condition.Parser
use rs2_runtime.Pipeline.Condition.Accepted.{parse-evaluates}
use rs2_runtime.Pipeline.Validation.{
  problem, step_place, action_count, of_parsed, of_run, pattern_problems, condition_problems,
  capture_problems, mode_problems, has_no_steps, is_parallel, goes_on, stops, header_problems,
  or_no_headers, call_problems, transform_problems, spec_problems, steps_problems, sub_problems,
  validate_spec,
}

-- A pattern gives a text, or the error that one of its placeholders resolves to nothing.
abbrev pub Resolves : Text → Type 0
Resolves pattern =
    (display : Value → Text) (decode : Text → Text) (view : UrlView) (scope : Fields)
    → ((s : Text) × (resolve display decode pattern view scope ≡ returned (ok s)))
      ⊎ ((interior : Text) × (resolve display decode pattern view scope
            ≡ returned (err (in_pattern pattern (unresolved interior)))))

-- A condition is read, and evaluated on every message.
abbrev pub Evaluates : (Text → Option Value) → Option Text → Type 1
Evaluates parse_f64 none = Unit
Evaluates parse_f64 (some cond) =
    (c : Condition) × ((left : Text) × (parse parse_f64 cond ≡ parsed c left))
    × ((numbers : Numbers) (api : HeaderApi) (msg : Message (api.Map)) (vars : Fields)
        → (b : Bool) × (evaluate numbers api msg vars c ≡ ok b))

abbrev pub Callable : (Text → Option Method) → Option CallSpec → Type 0
Callable from_bytes none = Unit
Callable from_bytes (some c) =
    ((m : Method) × (from_bytes c.method ≡ some m))
    × Resolves c.url
    × All (λ h. Resolves h.1) (or_no_headers c.headers)

module _ (from_bytes : Text → Option Method) (parse_f64 : Text → Option Value) {F : Type 0} where
  unfoldable mutual
    pub IsSound : PipelineSpec F → Type 1
    IsSound (spec parts steps) =
        (has_no_steps steps ≡ false)
        × ((is_parallel parts.mode && goes_on parts.on_fail) ≡ false)
        × (stops parts.on_succeed ≡ false)
        × SoundSteps steps

    pub SoundSteps : Steps F → Type 1
    SoundSteps last_step = Unit
    SoundSteps (step s nested rest) =
        (action_count s nested ≡ 1)
        × Evaluates parse_f64 s.condition
        × Callable from_bytes s.call
        × ((s.elevate && not (is_some s.call)) ≡ false)
        × SoundSub nested
        × SoundSteps rest

    pub SoundSub : Sub F → Type 1
    SoundSub no_sub = Unit
    SoundSub (sub p) = IsSound p

problem-nil : (b : Bool) (e : Text) → problem b e ≡ [] → b ≡ false
problem-nil true e h = absurd (ground arith)
problem-nil false e h = refl

-- A pattern without a problem is accepted by the validation, and so resolves.
of_run-nil :
    (prefix : Text) (r : Run (Unit {0}))
    → r ≢ out_of_fuel
    → of_run prefix r ≡ []
    → r ≡ returned (ok tt)
of_run-nil prefix out_of_fuel ne h = absurd (ne refl)
of_run-nil prefix (returned (err e)) ne h = absurd (ground arith)
of_run-nil prefix (returned (ok u)) ne h = refl

Agrees-ok :
    (pattern : Text) (validated : Run (Unit {0})) (resolved : Run Text)
    → Agrees pattern validated resolved
    → validated ≡ returned (ok tt)
    → ((s : Text) × (resolved ≡ returned (ok s)))
      ⊎ ((interior : Text) × (resolved ≡ returned (err (in_pattern pattern (unresolved interior)))))
Agrees-ok pattern validated resolved (inl (v, s, e)) h = inl (s, e)
Agrees-ok pattern validated resolved (inr (inl (interior, e))) h = inr (interior, e)
Agrees-ok pattern validated resolved (inr (inr (failure, v, e))) h = absurd (ground arith)

pattern_problems-Resolves :
    (prefix pattern : Text) → pattern_problems prefix pattern ≡ [] → Resolves pattern
unfolding pattern_problems
pattern_problems-Resolves prefix pattern h display decode view scope =
    let (returns, more) = resolve-returns display decode view scope pattern in
    Agrees-ok pattern _ _ (resolve-Agrees display decode view scope pattern)
      (of_run-nil prefix (validate pattern) returns h)

header_problems-Resolves :
    (from_bytes : Text → Option Method) (is_header_name : Text → Bool) (at : Text)
    (headers : List (Text × Text))
    → header_problems from_bytes is_header_name at headers ≡ []
    → All (λ h. Resolves h.1) headers
header_problems-Resolves from_bytes is_header_name at [] h = tt
header_problems-Resolves from_bytes is_header_name at ((name, value) ∷ headers) h =
    let (valid, others) = append-eq-nil _ _ h in
    let (pattern, later) = append-eq-nil _ _ others in
    (
      pattern_problems-Resolves _ value pattern,
      header_problems-Resolves from_bytes is_header_name at headers later,
    )

is_some-some : {A : Type 0} (o : Option A) → not (is_some o) ≡ false → (a : A) × (o ≡ some a)
is_some-some none h = absurd (ground arith)
is_some-some (some a) h = (a, refl)

not-eq-false : (a b : ℕ) → not (a == b) ≡ false → a ≡ b
not-eq-false a b h = ground arith

of_parsed-nil :
    (at cond : Text) (r : Parsed Condition)
    → r ≢ Parser.out_of_fuel
    → ((c : Condition) (left : Text)
        → r ≡ parsed c left
        → (numbers : Numbers) (api : HeaderApi) (msg : Message (api.Map)) (vars : Fields)
        → (b : Bool) × (evaluate numbers api msg vars c ≡ ok b))
    → of_parsed at cond r ≡ []
    → (c : Condition) × ((left : Text) × (r ≡ parsed c left))
      × ((numbers : Numbers) (api : HeaderApi) (msg : Message (api.Map)) (vars : Fields)
          → (b : Bool) × (evaluate numbers api msg vars c ≡ ok b))
of_parsed-nil at cond Parser.out_of_fuel ne runs h = absurd (ne refl)
of_parsed-nil at cond (rejected e) ne runs h = absurd (ground arith)
of_parsed-nil at cond (parsed c left) ne runs h =
    (c, (left, refl), λ numbers api msg vars. runs c left refl numbers api msg vars)

call_problems-Callable :
    (from_bytes : Text → Option Method) (is_header_name : Text → Bool) (at : Text)
    (c : Option CallSpec)
    → call_problems from_bytes is_header_name at c ≡ []
    → Callable from_bytes c
call_problems-Callable from_bytes is_header_name at none h = tt
call_problems-Callable from_bytes is_header_name at (some c) h =
    let (valid, others) = append-eq-nil (problem (not (is_some (from_bytes c.method))) _) _ h in
    let (pattern, later) = append-eq-nil (pattern_problems _ c.url) _ others in
    (
      is_some-some (from_bytes c.method) (problem-nil _ _ valid),
      pattern_problems-Resolves _ c.url pattern,
      header_problems-Resolves from_bytes is_header_name at (or_no_headers c.headers) later,
    )

condition_problems-Evaluates :
    (parse_f64 : Text → Option Value) (at : Text) (cond : Option Text)
    → condition_problems parse_f64 at cond ≡ []
    → Evaluates parse_f64 cond
condition_problems-Evaluates parse_f64 at none h = tt
condition_problems-Evaluates parse_f64 at (some cond) h =
    let (returns, runs) = parse-evaluates parse_f64 cond in
    of_parsed-nil at cond (parse parse_f64 cond) returns runs h

module _ (from_bytes : Text → Option Method) (is_header_name : Text → Bool)
    (parse_f64 : Text → Option Value) (validate_expr : Text → Option Text) {F : Type 0} where
  mutual
    unfolding spec_problems steps_problems sub_problems IsSound

    spec_problems-IsSound :
        (at : Text) (p : PipelineSpec F)
        → spec_problems from_bytes is_header_name parse_f64 validate_expr at p ≡ []
        → IsSound from_bytes parse_f64 p
    spec_problems-IsSound at (spec parts steps) h =
        let (own, inner) = append-eq-nil (mode_problems at parts steps) _ h in
        let (full, rules) = append-eq-nil (problem (has_no_steps steps) _) _ own in
        let (fail, succeed) =
          append-eq-nil (problem (is_parallel parts.mode && goes_on parts.on_fail) _) _ rules in
        (
          problem-nil _ _ full,
          problem-nil _ _ fail,
          problem-nil _ _ succeed,
          steps_problems-SoundSteps at 0 steps inner,
        )

    steps_problems-SoundSteps :
        (at : Text) (i : ℕ) (steps : Steps F)
        → steps_problems from_bytes is_header_name parse_f64 validate_expr at i steps ≡ []
        → SoundSteps from_bytes parse_f64 steps
    steps_problems-SoundSteps at i last_step h = tt
    steps_problems-SoundSteps at i (step s nested rest) h =
        let here = step_place at i in
        let (shape, h1) = append-eq-nil (problem (not (action_count s nested == 1)) _) _ h in
        let (condition, h2) = append-eq-nil (condition_problems parse_f64 here s.condition) _ h1 in
        let (capture, h3) = append-eq-nil (capture_problems here s.capture) _ h2 in
        let (call, h4) = append-eq-nil (call_problems from_bytes is_header_name here s.call) _ h3 in
        let (template, h5) =
          append-eq-nil (transform_problems validate_expr here s.transform) _ h4 in
        let (elevated, h6) = append-eq-nil (problem (s.elevate && not (is_some s.call)) _) _ h5 in
        let (inner, later) =
          append-eq-nil (sub_problems from_bytes is_header_name parse_f64 validate_expr here nested)
            _ h6 in
        (
          not-eq-false _ _ (problem-nil _ _ shape),
          condition_problems-Evaluates parse_f64 here s.condition condition,
          call_problems-Callable from_bytes is_header_name here s.call call,
          problem-nil _ _ elevated,
          sub_problems-SoundSub here nested inner,
          steps_problems-SoundSteps at (suc i) rest later,
        )

    sub_problems-SoundSub :
        (at : Text) (nested : Sub F)
        → sub_problems from_bytes is_header_name parse_f64 validate_expr at nested ≡ []
        → SoundSub from_bytes parse_f64 nested
    sub_problems-SoundSub at no_sub h = tt
    sub_problems-SoundSub at (sub p) h = spec_problems-IsSound at p h

-- A spec without problems has, in it and in every pipeline that it nests: a step at least, and
-- actions that the mode allows; and each step has exactly one action, a condition, if it has one,
-- that is read and then evaluated on every message without an error, and a call, if it has one,
-- by a known method, whose URL and headers give a text or the error that a placeholder resolves
-- to nothing; and no step but a call is elevated.
pub validate_spec-IsSound :
    (from_bytes : Text → Option Method) (is_header_name : Text → Bool)
    (parse_f64 : Text → Option Value) (validate_expr : Text → Option Text) {F : Type 0}
    (p : PipelineSpec F)
    → validate_spec from_bytes is_header_name parse_f64 validate_expr p ≡ []
    → IsSound from_bytes parse_f64 p
unfolding validate_spec
validate_spec-IsSound from_bytes is_header_name parse_f64 validate_expr p h =
    spec_problems-IsSound from_bytes is_header_name parse_f64 validate_expr [] p h
