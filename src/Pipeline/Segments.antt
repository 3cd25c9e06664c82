-- ===== src/Pipeline/Segments.antt =====
-- rs2-core/src/pipeline/segments.rs: the segments that a serial pipeline is retried by, and the
-- warnings about the calls that a retry would repeat.
pub mod Partition
pub mod Warnings
use rs2_runtime.Common.{
  ℕ, zero, suc, ◌+◌, ◌-◌, Bool, true, false, Option, none, some, List, [], ◌∷◌, ◌++◌, map, ltb,
  ◌==◌, not, is_some, ◌&&◌, ◌||◌, if◌then◌else◌,
}
use rs2_runtime.Common.Text.{Text, lit}
use rs2_runtime.Common.Text.Decimal.{decimal}
use rs2_runtime.Message.{Method}
use rs2_runtime.Retry.{EffectClass, unsafe}
use rs2_runtime.Pipeline.Spec.{
  Mode, serial, StepParts, SpecParts, PipelineSpec, spec, Steps, last_step, step, Sub, no_sub, sub,
  effect_class,
}

pub record Segment : Type 0 where
  pub start : ℕ
  pub end : ℕ
  pub checkpoint_eligible : Bool

pub record SegmentPlan : Type 0 where
  pub segments : List Segment
  pub warnings : List Text

module _ {F : Type 0} where
  abbrev pub materializes : StepParts F → Bool
  materializes s = is_some s.transform || is_some s.split

  -- `steps.len()` and `steps[i]`.
  abbrev pub count : Steps F → ℕ
  count last_step = 0
  count (step s nested rest) = suc (count rest)

  abbrev pub step_at : Steps F → ℕ → Option (StepParts F)
  step_at last_step i = none
  step_at (step s nested rest) zero = some s
  step_at (step s nested rest) (suc i) = step_at rest i

  -- The boundaries pushed from step `i` on, after `last`.
  unfoldable pub boundaries : ℕ → ℕ → Steps F → List ℕ
  boundaries i last last_step = i ∷ []
  boundaries i last (step s nested rest) =
      let cut = materializes s && (ltb 0 i && not (last == i)) in
      let later = boundaries (suc i) (if cut then i else last) rest in
      if cut then i ∷ later else later

-- `boundaries.windows(2)`.
unfoldable pub windows : ℕ → List ℕ → List Segment
windows a [] = []
windows a (b ∷ bs) = record { start = a; end = b; checkpoint_eligible = true } ∷ windows b bs

abbrev pub is_unsafe : Option EffectClass → Bool
is_unsafe (some unsafe) = true
is_unsafe _ = false

unfoldable pub unsafe_warning : ℕ → Segment → Text
unsafe_warning i seg =
    lit "steps["
    ++ (decimal i
        ++ (lit "]: unsafe-effect step is not the last in its segment ("
            ++ (decimal seg.start
                ++ (lit ".."
                    ++ (decimal seg.end
                        ++ lit
                            ") — a segment retry would re-execute it; mark it 'keyed', materialize before it, or suppress this warning")))))

abbrev pub is_serial : Mode → Bool
is_serial serial = true
is_serial _ = false

abbrev pub is_empty : {F : Type 0} → Steps F → Bool
is_empty last_step = true
is_empty (step s nested rest) = false

-- Where the pipeline of step `i` stands.
unfoldable pub here : Text → ℕ → Text
here at i = at ++ (lit "/steps[" ++ (decimal i ++ lit "]/pipeline"))

module _ (from_bytes : Text → Option Method) {F : Type 0} where
  -- A step beyond the pipeline, on which the index would panic, gives no warning; no segment
  -- reaches so far.
  abbrev pub is_repeated : Option (StepParts F) → Bool
  is_repeated none = false
  is_repeated (some s) = is_unsafe (effect_class from_bytes s)

  abbrev pub warns : Steps F → Segment → ℕ → Bool
  warns steps seg i = is_repeated (step_at steps i) && not (suc i == seg.end)

  -- The steps of a segment from `i` on, of which `n` are left.
  unfoldable pub warn_steps : Steps F → Segment → ℕ → ℕ → List Text
  warn_steps steps seg i zero = []
  warn_steps steps seg i (suc n) =
      let later = warn_steps steps seg (suc i) n in
      if warns steps seg i then unsafe_warning i seg ∷ later else later

  unfoldable pub warn_segments : Steps F → List Segment → List Text
  warn_segments steps [] = []
  warn_segments steps (seg ∷ segs) =
      warn_steps steps seg seg.start (seg.end - seg.start) ++ warn_segments steps segs

  unfoldable pub linear : Steps F → List Text → SegmentPlan
  linear steps nested =
      let segments = windows 0 (boundaries 0 0 steps) in
      record { segments = segments; warnings = warn_segments steps segments ++ nested }

  unfoldable pub whole : Steps F → List Text → SegmentPlan
  whole steps nested = record {
    segments = record { start = 0; end = count steps; checkpoint_eligible = false } ∷ [];
    warnings = nested;
  }

  unfoldable mutual
    pub plan : PipelineSpec F → SegmentPlan
    plan (spec parts steps) =
        let nested = collect_warnings [] 0 steps in
        if is_serial parts.mode && not (is_empty steps)
        then linear steps nested
        else whole steps nested

    pub collect_warnings : Text → ℕ → Steps F → List Text
    collect_warnings at i last_step = []
    collect_warnings at i (step s nested rest) =
        sub_warnings (here at i) nested ++ collect_warnings at (suc i) rest

    pub sub_warnings : Text → Sub F → List Text
    sub_warnings at no_sub = []
    sub_warnings at (sub nested) = map (λ w. at ++ (lit ": " ++ w)) ((plan nested).warnings)
