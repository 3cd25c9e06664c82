-- ===== src/Pipeline/Executor/Tests.antt =====
-- Runs of pipelines, and the theorems at them.
use rs2_runtime.Common.{
  ℕ, ◌-◌, ◌⊎◌, ltb, ◌≡◌, refl, true, false, Option, none, some, List, [], ◌∷◌, All,
}
use rs2_runtime.Common.Text.{Text, lit}
use rs2_runtime.Common.Arrangement.{IsArrangement, IsAscending}
use rs2_runtime.Common.Text.Order.{compare_text}
use rs2_runtime.Json.{Value, null, string, Fields, end, field, lookup}
use rs2_runtime.Message.MediaTypes.{new}
use rs2_runtime.Message.Content.{from_string}
use rs2_runtime.Pipeline.Spec.{
  json_split, StepParts, PipelineSpec, spec, Steps, last_step, step, no_sub,
}
use rs2_runtime.Pipeline.Segments.{Segment}
use rs2_runtime.Pipeline.Executor.Base.{
  Place, key_path, at_step, element, panics, gives, continue, clone_with_body,
}
use rs2_runtime.Pipeline.Executor.Call.{run_call}
use rs2_runtime.Pipeline.Executor.Step.{Runner}
use rs2_runtime.Pipeline.Executor.Fanout.{
  name_before, join, run_elements, split_elements, exits, element_message,
}
use rs2_runtime.Pipeline.Executor.Parallel.{run_parallel}
use rs2_runtime.Pipeline.Executor.Serial.{run_retried, max_attempts_of, one_attempt}
use rs2_runtime.Pipeline.Executor.Run.{run}
use rs2_runtime.Pipeline.Executor.Call.Requests.{IsContained, run_call-IsContained}
use rs2_runtime.Pipeline.Executor.Serial.Attempts.{IsRepeatable, IsSettled, run_retried-IsSettled}
use rs2_runtime.Pipeline.Executor.Fanout.Order.{AllGave, split_elements-order}
use rs2_runtime.Pipeline.Executor.Granted.{IsGranted, run-IsGranted}
use rs2_runtime.Pipeline.Executor.Target.{derive_key}
use rs2_runtime.Pipeline.Executor.Call.Keys.{ShareKey, run_call-ShareKey}
use rs2_runtime.Pipeline.Executor.Sample.{
  with_role_ops, elevating, down_call, repeating, codec, paths, Msg, request, upwards, world,
  executor, call_to, bare, serial_parts, nesting, all_of, calls_of,
}

-- The call in the nested pipeline is repeated by a retry of the outer segment.
nested_is_repeated :
    calls_of nesting none (request (lit "/"))
    ≡ lit "/orders" ∷ lit "/down" ∷ lit "/orders" ∷ lit "/down" ∷ []
unfolding all_of
nested_is_repeated = refl

abbrev with_items : Msg
with_items =
    let m = request (lit "/") in
    record m { body = some (from_string codec.encode (lit "[]") (new (lit "application/json"))) }

abbrev splitting : PipelineSpec ℕ
splitting =
    let s = bare in
    spec serial_parts (
      step (record s { split = some json_split }) no_sub
        (step (call_to (lit "GET") (lit "/a")) no_sub last_step))

-- A split runs the steps behind it, also where a run is to stop at the split.
split_is_not_truncated : calls_of splitting (some 0) with_items ≡ lit "/a" ∷ lit "/a" ∷ []
unfolding all_of
split_is_not_truncated = refl

abbrev capturing : StepParts ℕ
capturing = let s = call_to (lit "GET") (lit "/v") in record s { capture = some (lit "v") }

abbrev old : Fields
old = field (lit "v") (string (lit "old")) end

abbrev bound_after : (completion : ℕ → Place → ℕ → List ℕ) → Option Value
bound_after completion =
    let nobody : Runner (world completion) = λ p place msg vars. ([], panics) in
    elim ((run_parallel (world completion) executor nobody serial_parts
      (step capturing no_sub (step (call_to (lit "GET") (lit "/w")) no_sub last_step)) []
      (request (lit "/")) old).1) [ gives r ↦ lookup (lit "v") r.0 | _ ↦ none ]

-- What a branch captures is lost where one completes later that does not capture it.
capture_is_lost : bound_after upwards ≡ some (string (lit "old"))
unfolding all_of
capture_is_lost = refl

capture_is_kept : bound_after (λ c place n. 1 ∷ 0 ∷ []) ≡ some null
unfolding all_of
capture_is_kept = refl

-- Two places of one run with one path, and so with one idempotency key.
key_paths_collide :
    key_path (at_step 1 ∷ element (lit "a]/split[b") ∷ [])
    ≡ key_path (at_step 1 ∷ element (lit "b") ∷ element (lit "a") ∷ [])
unfolding all_of
key_paths_collide = refl

-- The comparison of names goes round in a circle.
names_circle :
    (name_before (lit "10") (lit "2") ≡ false)
    × (name_before (lit "1a") (lit "10") ≡ false)
    × (name_before (lit "2") (lit "1a") ≡ false)
unfolding all_of compare_text
names_circle = (refl, refl, refl)

run-IsGranted_example :
    All
      (IsGranted (world upwards) executor)
      ((run (world upwards) executor nesting (request (lit "/")) none).0)
run-IsGranted_example = run-IsGranted (world upwards) executor nesting (request (lit "/")) none

run_call-IsContained_example :
    All (IsContained (world upwards) with_role_ops elevating (request (lit "/"))) (
      (run_call
        (world upwards)
        with_role_ops
        (at_step 0 ∷ [])
        elevating
        down_call
        (request (lit "/"))
        old).0)
run_call-IsContained_example =
    run_call-IsContained (world upwards) with_role_ops (at_step 0 ∷ []) elevating down_call
      (request (lit "/")) old

run_call-ShareKey_example :
    ShareKey
      (world upwards)
      executor
      none
      (derive_key codec.encode (λ b. b) (lit "run") (key_path (at_step 0 ∷ [])))
      ((run_call
        (world upwards)
        executor
        (at_step 0 ∷ [])
        repeating
        down_call
        (request (lit "/"))
        old).0)
unfolding all_of
run_call-ShareKey_example =
    run_call-ShareKey (world upwards) executor (at_step 0 ∷ []) repeating down_call
      (request (lit "/")) old refl refl

-- A call is repeated, with its key.
keyed_is_repeated :
    paths (
      (run_call
        (world upwards)
        executor
        (at_step 0 ∷ [])
        repeating
        down_call
        (request (lit "/"))
        old).0)
    ≡ lit "/down" ∷ lit "/down" ∷ []
unfolding all_of
keyed_is_repeated = refl

abbrev no_nested : Runner (world upwards)
no_nested p place msg vars = ([], panics)

abbrev down_steps : Steps ℕ
down_steps = step (call_to (lit "GET") (lit "/down")) no_sub last_step

abbrev down_segment : Segment
down_segment = record { start = 0; end = 1; checkpoint_eligible = true }

run_retried-IsSettled_example :
    ((max_attempts_of (world upwards) executor (some none) (1 - 0) down_steps ≡ 1)
      ⊎ IsRepeatable (world upwards) executor (some none) (1 - 0) down_steps)
    × IsSettled
        (world upwards)
        executor
        (one_attempt
          (world upwards)
          executor
          no_nested
          serial_parts
          none
          []
          down_steps
          down_segment
          (request (lit "/"))
          old)
        (ltb 1 (max_attempts_of (world upwards) executor (some none) (1 - 0) down_steps))
        old
        1
        (max_attempts_of (world upwards) executor (some none) (1 - 0) down_steps - 1)
        (run_retried
          (world upwards)
          executor
          no_nested
          serial_parts
          none
          []
          down_steps
          down_segment
          old
          (request (lit "/"), some none))
run_retried-IsSettled_example =
    run_retried-IsSettled (world upwards) executor no_nested serial_parts none [] down_steps
      down_segment old (request (lit "/")) (some none)

abbrev two_elements : List (Text × Value)
two_elements = (lit "0", string (lit "x")) ∷ (lit "1", string (lit "y")) ∷ []

-- The second element completes first.
abbrev downwards : ℕ → Place → ℕ → List ℕ
downwards c place n = 1 ∷ 0 ∷ []

abbrev idle : Runner (world downwards)
idle p place msg vars = ([], panics)

abbrev element_of : Text → Text → Text × Msg
element_of name t =
    (name, element_message (world downwards) executor (request (lit "/")) name (string t))

abbrev two_named : List (Text × Msg)
two_named = element_of (lit "0") (lit "x") ∷ element_of (lit "1") (lit "y") ∷ []

both_gave :
    AllGave
      (world downwards)
      executor
      (run_elements
        (world downwards)
        executor
        idle
        serial_parts
        last_step
        []
        (request (lit "/"))
        old
        0
        two_elements)
      two_named
unfolding all_of
both_gave = (
  ((old, continue (element_of (lit "0") (lit "x")).1), refl, refl),
  (((old, continue (element_of (lit "1") (lit "y")).1), refl, refl), tt),
)

names_ascend : IsAscending {A = Text × Msg} (λ a b. name_before a.0 b.0) two_named
unfolding all_of compare_text
names_ascend = (((refl, refl), tt), (tt, tt))

two_complete : IsArrangement 2 (1 ∷ 0 ∷ [])
two_complete = ([], 0 ∷ [], refl, ([], [], refl, refl))

split_elements-order_example :
    (split_elements
      (world downwards)
      executor
      idle
      serial_parts
      last_step
      []
      (request (lit "/"))
      old
      two_elements).1
    ≡ exits
        (world downwards)
        executor
        old
        (join (world downwards) executor two_named (clone_with_body (request (lit "/")) none))
split_elements-order_example =
    split_elements-order (world downwards) executor idle serial_parts last_step []
      (request (lit "/")) old two_elements two_named refl two_complete both_gave names_ascend
