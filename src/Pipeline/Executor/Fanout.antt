-- ===== src/Pipeline/Executor/Fanout.antt =====
-- Fan-outs of rs2-core/src/pipeline/executor.rs: `join`, `run_split` and `run_parallel`. The branches run
-- concurrently; the world says in which order they complete. The nested pipelines are run by a parameter.
pub mod Order
use rs2_runtime.Common.{
  ℕ, zero, suc, ◌+◌, ◌*◌, ◌-◌, ◌^◌, min, max, Bool, true, false, Option, none, some, List, [], ◌∷◌,
  ◌++◌, ltb, leb, ◌==◌, all, length, not, ◌&&◌, if◌then◌else◌, Ordering,
}
use rs2_runtime.Common.Text.{Text, lit, is_ascii_digit}
use rs2_runtime.Common.Text.Decimal.{decimal}
use rs2_runtime.Common.Text.Order.{compare_text}
use rs2_runtime.Common.Sort.{sort_by}
use rs2_runtime.Common.Arrangement.{in_order}
use rs2_runtime.Error.{Result, ok, err, RsError, bad_request, limit_exceeded}
use rs2_runtime.Error
use rs2_runtime.Error.Problem.{put, put_all}
use rs2_runtime.Json.{Value, array, object, Items, nil, cons, Fields, end, field, unwrap_or}
use rs2_runtime.Message.{Message, Body, is_ok}
use rs2_runtime.Message.Content.{from_json, as_json}
use rs2_runtime.Pipeline.Spec.{
  Mode, serial, Action, stop, Joiner, json_object, StepParts, SpecParts, PipelineSpec, spec, Steps,
  last_step, step, Sub, fail_action,
}
use rs2_runtime.Pipeline.Segments.{count}
use rs2_runtime.Pipeline.Executor.Base.{
  World, Executor, Place, Hop, at_step, element, Flow, continue, exit, abort, Sent, Ended, fails,
  panics, gives, Exec, done, lift, ◌>>=◌, try_clone, clone_with_body, materialize_if_needed, Msg,
  ok_json,
}
use rs2_runtime.Pipeline.Executor.Request.{value_of}
use rs2_runtime.Pipeline.Executor.Step.{Runner, run_step}

-- `parse::<u64>`.
abbrev pub number_from : ℕ → Text → ℕ
number_from n [] = n
number_from n (c ∷ s) = number_from (10 * n + (c - b'0')) s

abbrev pub digits_u64 : Text → Option ℕ
digits_u64 [] = none
digits_u64 (c ∷ s) =
    if all is_ascii_digit (c ∷ s) && ltb (number_from 0 (c ∷ s)) (2 ^ 64)
    then some (number_from 0 (c ∷ s))
    else none

abbrev without_plus : Text → Text
without_plus [] = []
without_plus (c ∷ s) = if c == b'+' then s else c ∷ s

unfoldable pub parse_u64 : Text → Option ℕ
parse_u64 s = digits_u64 (without_plus s)

-- The comparison that restores the order of the elements: less or equal.
abbrev pub at_most : Ordering → Bool
at_most Ordering.gt = false
at_most _ = true

abbrev pub numbers_or_texts : Text → Text → Option ℕ → Option ℕ → Bool
numbers_or_texts a b (some m) (some n) = leb m n
numbers_or_texts a b _ _ = at_most (compare_text a b)

unfoldable pub name_before : Text → Text → Bool
unfolding parse_u64
name_before a b = numbers_or_texts a b (parse_u64 a) (parse_u64 b)

-- A branch or element that has run.
pub record Finished (w : World) : Type 0 where
  pub index : ℕ
  pub finished_name : Text
  pub outcome : Exec (Msg w) (Fields × Flow (Msg w))

abbrev pub all_sent : {w : World} → List (Finished w) → List (Sent (Msg w))
all_sent [] = []
all_sent (f ∷ fs) = f.outcome.0 ++ all_sent fs

abbrev pub has_panicked : {A : Type 0} → Ended A → Bool
has_panicked panics = true
has_panicked _ = false

-- A future that panics ends the run that polls it.
abbrev pub any_panics : {w : World} → List (Finished w) → Bool
any_panics [] = false
any_panics (f ∷ fs) = if has_panicked f.outcome.1 then true else any_panics fs

-- The requests of all futures, and what is made of their outcomes.
abbrev pub collected : {w : World} {B : Type 0} → List (Finished w) → Ended B → Exec (Msg w) B
collected fs after = (all_sent fs, if any_panics fs then panics else after)

abbrev pub message_of : {M : Type 0} → Flow M → M
message_of (continue m) = m
message_of (exit m) = m
message_of (abort m) = m

module _ (w : World) (x : Executor (w.floats.F)) where
  unfoldable pub joined_fields : List (Text × Msg w) → Fields → Result Fields
  joined_fields [] out = ok out
  joined_fields ((name, m) ∷ named) out = elim (value_of w x m) [
    | err e ↦ err e
    | ok v ↦ joined_fields named (put name v out)
  ]

  -- `join`; the one joiner is `JsonObject`.
  abbrev pub join_fields : Msg w → Result Fields → Ended (Msg w)
  join_fields template (err e) = fails e
  join_fields template (ok out) = gives (ok_json w template (object out))

  unfoldable pub join : List (Text × Msg w) → Msg w → Ended (Msg w)
  unfolding joined_fields
  join named template = join_fields template (joined_fields named end)

  abbrev pub concurrency_of : SpecParts → ℕ
  concurrency_of parts = max (unwrap_or parts.concurrency x.limits.default_concurrency) 1

  abbrev pub item_elements : ℕ → Items → List (Text × Value)
  item_elements i nil = []
  item_elements i (cons v vs) = (decimal i, v) ∷ item_elements (suc i) vs

  abbrev pub field_elements : Fields → List (Text × Value)
  field_elements end = []
  field_elements (field k v fs) = (k, v) ∷ field_elements fs

  abbrev pub elements_of : Value → List (Text × Value)
  elements_of (array items) = item_elements 0 items
  elements_of (object fs) = field_elements fs
  elements_of v = (lit "0", v) ∷ []

  abbrev pub no_steps : Steps (w.floats.F) → Bool
  no_steps last_step = true
  no_steps (step s nested rest) = false

  -- The rest of the pipeline as one that an element runs.
  abbrev pub rest_spec : SpecParts → Steps (w.floats.F) → PipelineSpec (w.floats.F)
  rest_spec parts rest = spec (record parts { mode = serial; joiner = none }) rest

  abbrev pub element_message : Msg w → Text → Value → Msg w
  element_message msg name v =
      let m = clone_with_body msg (some (from_json w.codec v)) in record m { name = some name }

  unfoldable pub run_elements :
      Runner w
      → SpecParts
      → Steps (w.floats.F)
      → Place
      → Msg w
      → Fields
      → ℕ
      → List (Text × Value)
      → List (Finished w)
  run_elements nested parts rest place msg vars i [] = []
  run_elements nested parts rest place msg vars i ((name, v) ∷ es) =
      let m = element_message msg name v in
      record {
        index = i;
        finished_name = name;
        outcome =
            if no_steps rest
            then done (vars, continue m)
            else nested (rest_spec parts rest) (element name ∷ place) m vars;
      }
      ∷ run_elements nested parts rest place msg vars (suc i) es

  -- The outcomes in the order of completion; the first error ends the run.
  abbrev pub named_with :
      Text
      → Ended (Fields × Flow (Msg w))
      → Ended (List (Text × Msg w))
      → Ended (List (Text × Msg w))
  named_with name (fails e) later = fails e
  named_with name panics later = panics
  named_with name (gives r) (gives named) = gives ((name, message_of r.1) ∷ named)
  named_with name (gives r) other = other

  unfoldable pub named_results : List (Finished w) → Ended (List (Text × Msg w))
  named_results [] = gives []
  named_results (f ∷ fs) = named_with f.finished_name f.outcome.1 (named_results fs)

  abbrev pub split_join : Msg w → Ended (List (Text × Msg w)) → Ended (Msg w)
  split_join template (fails e) = fails e
  split_join template panics = panics
  split_join template (gives named) = join (sort_by (λ a b. name_before a.0 b.0) named) template

  abbrev pub exits : Fields → Ended (Msg w) → Ended (Fields × Flow (Msg w))
  exits vars (fails e) = fails e
  exits vars panics = panics
  exits vars (gives m) = gives (vars, exit m)

  abbrev pub split_elements :
      Runner w
      → SpecParts
      → Steps (w.floats.F)
      → Place
      → Msg w
      → Fields
      → List (Text × Value)
      → Exec (Msg w) (Fields × Flow (Msg w))
  split_elements nested parts rest place msg vars es =
      let runs = run_elements nested parts rest place msg vars 0 es in
      let order = w.completion (concurrency_of parts) place (length es) in
      if ltb x.limits.max_fanout (length es)
      then lift (err (limit_exceeded (lit "pipeline_fanout") (length es) x.limits.max_fanout))
      else collected runs
          (exits vars (split_join (clone_with_body msg none) (named_results (in_order order runs))))

  abbrev pub split_value :
      Runner w
      → SpecParts
      → Steps (w.floats.F)
      → Place
      → Msg w
      → Fields
      → Body × Result Value
      → Exec (Msg w) (Fields × Flow (Msg w))
  split_value nested parts rest place msg vars (body, err e) = lift (err e)
  split_value nested parts rest place msg vars (body, ok v) =
      split_elements nested parts rest place (record msg { body = some body }) vars (elements_of v)

  unfoldable pub run_split :
      Runner w
      → SpecParts
      → Steps (w.floats.F)
      → Place
      → Msg w
      → Fields
      → Exec (Msg w) (Fields × Flow (Msg w))
  unfolding as_json
  run_split nested parts rest place msg vars = elim msg.body [
    | none ↦ lift (err (bad_request (lit "jsonSplit requires a JSON body")))
    | some body ↦
        split_value nested parts rest place msg vars (as_json w.codec x.limits.materialize_cap body)
  ]
