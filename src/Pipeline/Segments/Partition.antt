-- ===== src/Pipeline/Segments/Partition.antt =====
-- Where the segments of a plan begin and end.
use rs2_runtime.Common.{
  ℕ, zero, suc, ◌+◌, ◌-◌, ◌<◌, ◌≤◌, ◌≡◌, ◌↔◌, ◌⊎◌, inl, inr, refl, sym, Bool, true, false, Option,
  none, some, List, [], ◌∷◌, map, In, Bool-cases, arith,
}
use rs2_runtime.Common.Text.{Text}
use rs2_runtime.Message.{Method}
use rs2_runtime.Pipeline.Spec.{serial, StepParts, SpecParts, spec, Steps, last_step, step, Sub}
use rs2_runtime.Pipeline.Segments.{
  Segment, materializes, count, step_at, boundaries, windows, plan, is_empty, linear,
}

-- The segments follow each other from `a` to `n`, none of them empty.
abbrev pub Tiles : ℕ → ℕ → List Segment → Type 0
Tiles a n [] = a ≡ n
Tiles a n (seg ∷ segs) = (seg.start ≡ a) × (a < seg.end) × Tiles seg.end n segs

-- Step `j` is a transform or a split.
abbrev pub cuts_at : {F : Type 0} → Steps F → ℕ → Bool
cuts_at steps j = elim (step_at steps j) [ none ↦ false | some s ↦ materializes s ]

abbrev pub starts : List Segment → List ℕ
starts segs = map (λ seg. seg.start) segs

iff_trans {ℓ κ μ} : {A : Type ℓ} {B : Type κ} {C : Type μ} → A ↔ B → B ↔ C → A ↔ C
iff_trans (f, g) (h, k) = (λ a. h (f a), λ c. g (k c))

compare-cases : (i j : ℕ) → (i < j) ⊎ ((i ≡ j) ⊎ (j < i))
compare-cases i j = ground arith

module _ {F : Type 0} where
  -- At a step that is not the first, a boundary is pushed exactly if the step materializes.
  boundaries-cut :
      (i a : ℕ) (s : StepParts F) (nested : Sub F) (rest : Steps F)
      → a < i
      → materializes s ≡ true
      → boundaries i a (step s nested rest) ≡ i ∷ boundaries (suc i) i rest
  unfolding boundaries
  boundaries-cut i a s nested rest h cut = ground arith

  boundaries-uncut :
      (i a : ℕ) (s : StepParts F) (nested : Sub F) (rest : Steps F)
      → materializes s ≡ false
      → boundaries i a (step s nested rest) ≡ boundaries (suc i) a rest
  unfolding boundaries
  boundaries-uncut i a s nested rest whole = ground arith

  boundaries-Tiles :
      (i a : ℕ) (steps : Steps F)
      → a < i
      → Tiles a (i + count steps) (windows a (boundaries i a steps))
  unfolding windows
  boundaries-Tiles i a last_step h = unfold boundaries in (refl, h, omega arith)
  boundaries-Tiles i a (step s nested rest) h =
      let shift : (i + suc (count rest)) ≡ (suc i + count rest) = omega arith in
      elim (Bool-cases (materializes s)) [
        | inl cut ↦
            rw (boundaries-cut i a s nested rest h cut, shift)
              (refl, h, boundaries-Tiles (suc i) i rest (omega arith))
        | inr whole ↦
            rw (boundaries-uncut i a s nested rest whole, shift)
              (boundaries-Tiles (suc i) a rest (omega arith))
      ]

  cuts_at-shift :
      (s : StepParts F) (nested : Sub F) (rest : Steps F) (i j : ℕ)
      → i < j
      → cuts_at (step s nested rest) (j - i) ≡ cuts_at rest (j - suc i)
  cuts_at-shift s nested rest i j h =
      let later : (j - i) ≡ suc (j - suc i) = omega arith in rw later refl

  cuts_at-here :
      (s : StepParts F) (nested : Sub F) (rest : Steps F) (i : ℕ)
      → cuts_at (step s nested rest) (i - i) ≡ materializes s
  cuts_at-here s nested rest i = let first : (i - i) ≡ 0 = omega arith in rw first refl

  -- From step `i` on: the step itself, or one that follows it.
  cuts_at-step :
      (s : StepParts F) (nested : Sub F) (rest : Steps F) (i j : ℕ)
      → ((i ≤ j) × (cuts_at (step s nested rest) (j - i) ≡ true))
        ↔ (((j ≡ i) × (materializes s ≡ true)) ⊎ ((suc i ≤ j) × (cuts_at rest (j - suc i) ≡ true)))
  cuts_at-step s nested rest i j = elim (compare-cases i j) [
    | inl before ↦ ground (arith, cuts_at-shift s nested rest i j before)
    | inr (inl e) ↦ rw (sym e) (ground (arith, cuts_at-here s nested rest i))
    | inr (inr after) ↦ ground arith
  ]

  boundaries-starts :
      (i a : ℕ) (steps : Steps F) (j : ℕ)
      → a < i
      → In j (starts (windows a (boundaries i a steps)))
        ↔ ((j ≡ a) ⊎ ((i ≤ j) × (cuts_at steps (j - i) ≡ true)))
  unfolding windows
  boundaries-starts i a last_step j h = unfold boundaries in ground arith
  boundaries-starts i a (step s nested rest) j h = elim (Bool-cases (materializes s)) [
    | inl cut ↦ rw (boundaries-cut i a s nested rest h cut) (
        ground (
          arith,
          cut,
          cuts_at-step s nested rest i j,
          boundaries-starts (suc i) i rest j (omega arith),
        ))
    | inr whole ↦ rw (boundaries-uncut i a s nested rest whole) (
        ground (
          arith,
          whole,
          cuts_at-step s nested rest i j,
          boundaries-starts (suc i) a rest j (omega arith),
        ))
  ]

  boundaries-first :
      (s : StepParts F) (nested : Sub F) (rest : Steps F)
      → boundaries 0 0 (step s nested rest) ≡ boundaries 1 0 rest
  unfolding boundaries
  boundaries-first s nested rest = elim (Bool-cases (materializes s)) [
    | inl cut ↦ rw cut refl
    | inr whole ↦ rw whole refl
  ]

  cuts_at-first :
      (s : StepParts F) (nested : Sub F) (rest : Steps F) (j : ℕ)
      → ((j ≡ 0) ⊎ ((1 ≤ j) × (cuts_at rest (j - 1) ≡ true)))
        ↔ ((j ≡ 0) ⊎ (cuts_at (step s nested rest) j ≡ true))
  cuts_at-first s nested rest zero = ground arith
  cuts_at-first s nested rest (suc j) =
      let before : (suc j - 1) ≡ j = omega arith in rw before (ground arith)

  pub segments-IsPartition :
      (s : StepParts F) (nested : Sub F) (rest : Steps F)
      → Tiles 0 (suc (count rest)) (windows 0 (boundaries 0 0 (step s nested rest)))
        × ((j : ℕ)
            → In j (starts (windows 0 (boundaries 0 0 (step s nested rest))))
              ↔ ((j ≡ 0) ⊎ (cuts_at (step s nested rest) j ≡ true)))
  segments-IsPartition s nested rest = rw (boundaries-first s nested rest) (
    let total : suc (count rest) ≡ 1 + count rest = omega arith in
        rw total (boundaries-Tiles 1 0 rest (omega arith)),
    λ j. iff_trans (boundaries-starts 1 0 rest j (omega arith)) (cuts_at-first s nested rest j),
  )

-- The segments of a serial pipeline of one step at least follow each other from its first step to
-- its end, none of them empty, and one begins at the first step and at each transform and split,
-- and nowhere else.
pub plan-IsPartition :
    (from_bytes : Text → Option Method) {F : Type 0} (parts : SpecParts) (steps : Steps F)
    → parts.mode ≡ serial
    → is_empty steps ≡ false
    → Tiles 0 (count steps) ((plan from_bytes (spec parts steps)).segments)
      × ((j : ℕ)
          → In j (starts ((plan from_bytes (spec parts steps)).segments))
            ↔ ((j ≡ 0) ⊎ (cuts_at steps j ≡ true)))
unfolding plan linear
plan-IsPartition from_bytes parts last_step h full = absurd (ground arith)
plan-IsPartition from_bytes parts (step s nested rest) h full =
    rw h (segments-IsPartition s nested rest)
