-- ===== src/Pipeline/Tests.antt =====
-- Pipelines to run, and the theorems at them.
use rs2_runtime.Common.{ℕ, ◌≡◌, refl, true, false, Option, none, some, [], ◌∷◌, if◌then◌else◌}
use rs2_runtime.Common.Text.{Text, lit, text_eq}
use rs2_runtime.Json.{null}
use rs2_runtime.Message.{Method, get, put, post}
use rs2_runtime.Retry.{EffectClass, keyed, default_for_method}
use rs2_runtime.Pipeline.Spec.{serial, StepParts, SpecParts, spec, Steps, last_step, step, no_sub}
use rs2_runtime.Pipeline.Segments.{
  Segment, boundaries, windows, unsafe_warning, warn_steps, warn_segments, linear, plan,
}
use rs2_runtime.Pipeline.Segments.Partition.{Tiles, starts, cuts_at, plan-IsPartition}
use rs2_runtime.Pipeline.Segments.Warnings.{IsRetrySafe, plan-warnings_iff}
use rs2_runtime.Common.{In, ◌↔◌, ◌⊎◌}

abbrev read_method : Text → Option Method
unfolding text_eq
read_method t =
    if text_eq t (lit "GET")
    then some get
    else if text_eq t (lit "PUT")
    then some put
    else if text_eq t (lit "POST")
    then some post
    else none

abbrev blank : StepParts ℕ
blank = record {
  condition = none;
  call = none;
  transform = none;
  split = none;
  try_mode = false;
  elevate = false;
  capture = none;
  name = none;
  retry = none;
}

abbrev call : Text → Option EffectClass → StepParts ℕ
call method effect = record blank {
  call = some (record { method = method; url = lit "/x"; effect = effect; headers = none });
}

abbrev transform : StepParts ℕ
transform = record blank { transform = some null }

abbrev serial_parts : SpecParts
serial_parts = record {
  mode = serial;
  on_fail = none;
  on_succeed = none;
  concurrency = none;
  joiner = none;
}

abbrev five_steps : Steps ℕ
five_steps = step (call (lit "GET") none) no_sub (
    step (call (lit "PUT") none) no_sub (
      step transform no_sub
        (step (call (lit "GET") none) no_sub (step transform no_sub last_step))))

abbrev segment : ℕ → ℕ → Segment
segment a b = record { start = a; end = b; checkpoint_eligible = true }

transforms_partition_segments :
    (plan read_method (spec serial_parts five_steps)).segments
    ≡ segment 0 2 ∷ segment 2 4 ∷ segment 4 5 ∷ []
unfolding plan linear boundaries windows
transforms_partition_segments = refl

abbrev post_first : Option EffectClass → Steps ℕ
post_first effect =
    step (call (lit "POST") effect) no_sub
      (step (call (lit "GET") none) no_sub (step transform no_sub last_step))

unsafe_step_mid_segment_warns :
    (plan read_method (spec serial_parts (post_first none))).warnings
    ≡ unsafe_warning 0 (segment 0 2) ∷ []
unfolding plan linear boundaries windows warn_segments warn_steps default_for_method text_eq
unsafe_step_mid_segment_warns = refl

keyed_step_is_fine : (plan read_method (spec serial_parts (post_first (some keyed)))).warnings ≡ []
unfolding plan linear boundaries windows warn_segments warn_steps default_for_method text_eq
keyed_step_is_fine = refl

plan-IsPartition_example :
    Tiles 0 5 ((plan read_method (spec serial_parts five_steps)).segments)
    × ((j : ℕ)
        → In j (starts ((plan read_method (spec serial_parts five_steps)).segments))
          ↔ ((j ≡ 0) ⊎ (cuts_at five_steps j ≡ true)))
plan-IsPartition_example = plan-IsPartition read_method serial_parts five_steps refl refl

plan-warnings_iff_example :
    ((plan read_method (spec serial_parts (post_first none))).warnings ≡ [])
    ↔ IsRetrySafe read_method (spec serial_parts (post_first none))
plan-warnings_iff_example = plan-warnings_iff read_method (spec serial_parts (post_first none))
