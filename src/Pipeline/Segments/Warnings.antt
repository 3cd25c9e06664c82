-- ===== src/Pipeline/Segments/Warnings.antt =====
-- When the plan of a pipeline gives no warning.
use rs2_runtime.Common.{
  ℕ, zero, suc, ◌+◌, ◌-◌, ◌<◌, ◌≤◌, ◌≡◌, ◌≢◌, ◌↔◌, ◌⊎◌, inl, inr, refl, subst, sym, Bool, true,
  false, Option, List, append-eq-nil, [], ◌∷◌, ◌++◌, map, In, if◌then◌else◌, Bool-cases, arith,
}
use rs2_runtime.Common.Text.{Text, lit}
use rs2_runtime.Message.{Method}
use rs2_runtime.Pipeline.Spec.{
  Mode, serial, parallel, conditional, tee, tee_wait, StepParts, PipelineSpec, spec, Steps,
  last_step, step, Sub, no_sub, sub,
}
use rs2_runtime.Pipeline.Segments.{
  Segment, count, step_at, boundaries, windows, plan, is_serial, linear, whole, collect_warnings,
  sub_warnings, warn_steps, warn_segments, here, is_repeated, warns, unsafe_warning,
}
use rs2_runtime.Pipeline.Segments.Partition.{Tiles, cuts_at, starts, segments-IsPartition}

module _ {A : Type 0} where
  if_cons-eq-nil :
      (b : Bool) (x : A) (xs : List A) → (if b then x ∷ xs else xs) ≡ [] → (b ≡ false) × (xs ≡ [])
  if_cons-eq-nil true x xs e = absurd (ground arith)
  if_cons-eq-nil false x xs e = (refl, e)

first-cases : (i k : ℕ) → i ≤ k → (i ≡ k) ⊎ (suc i ≤ k)
first-cases i k h = ground arith

split-cases : (i n : ℕ) → (i < n) ⊎ (n ≤ i)
split-cases i n = ground arith

module _ (n : ℕ) where
  Tiles-le : (a : ℕ) (segs : List Segment) → Tiles a n segs → a ≤ n
  Tiles-le a [] h = omega arith
  Tiles-le a (seg ∷ segs) (e, lt, later) = omega (arith, Tiles-le seg.end segs later)

  starts-le : (a : ℕ) (segs : List Segment) (j : ℕ) → Tiles a n segs → In j (starts segs) → a ≤ j
  starts-le a [] j h m = elim m [ ]
  starts-le a (seg ∷ segs) j (e, lt, later) (inl here) = omega arith
  starts-le a (seg ∷ segs) j (e, lt, later) (inr m) =
      omega (arith, starts-le seg.end segs j later m)

  -- The end of a segment is the end of the pipeline or the start of the next.
  Tiles-head : (a : ℕ) (segs : List Segment) → Tiles a n segs → (a ≡ n) ⊎ In a (starts segs)
  Tiles-head a [] h = inl h
  Tiles-head a (seg ∷ segs) (e, lt, later) = inr (inl (sym e))

  at_end :
      (seg : Segment) (segs : List Segment)
      → Tiles seg.end n segs
      → (k : ℕ) → (seg.start ≤ k) × (k < seg.end)
      → (suc k ≡ n) ⊎ In (suc k) (starts (seg ∷ segs))
      → suc k ≡ seg.end
  at_end seg segs t k (low, high) (inl e) = omega (arith, Tiles-le seg.end segs t)
  at_end seg segs t k (low, high) (inr (inl e)) = absurd (omega arith)
  at_end seg segs t k (low, high) (inr (inr m)) = omega (arith, starts-le seg.end segs (suc k) t m)

  drop_first :
      (seg : Segment) (segs : List Segment) (k : ℕ)
      → seg.start < k
      → (k ≡ n) ⊎ In k (starts (seg ∷ segs))
      → (k ≡ n) ⊎ In k (starts segs)
  drop_first seg segs k lt (inl e) = inl e
  drop_first seg segs k lt (inr (inl e)) = absurd (omega arith)
  drop_first seg segs k lt (inr (inr m)) = inr m

or_later {ℓ κ μ} : {A : Type ℓ} {B : Type κ} {C : Type μ} → A ⊎ C → A ⊎ (B ⊎ C)
or_later (inl a) = inl a
or_later (inr c) = inr (inr c)

module _ (from_bytes : Text → Option Method) {F : Type 0} (steps : Steps F) where
  abbrev Repeated : ℕ → Type 0
  Repeated i = is_repeated from_bytes (step_at steps i) ≡ true

  warns-eq-false :
      (seg : Segment) (i : ℕ) → warns from_bytes steps seg i ≡ false → Repeated i → suc i ≡ seg.end
  warns-eq-false seg i e r = ground (arith, rw r at e)

  warns-false :
      (seg : Segment) (i : ℕ)
      → (Repeated i → suc i ≡ seg.end)
      → warns from_bytes steps seg i ≡ false
  warns-false seg i h = elim (Bool-cases (is_repeated from_bytes (step_at steps i))) [
    | inl r ↦ rw (r, h r) (ground arith)
    | inr calm ↦ rw calm refl
  ]

  warn_steps-eq-nil :
      (seg : Segment) (i n : ℕ)
      → warn_steps from_bytes steps seg i n ≡ []
      → (k : ℕ) → i ≤ k
      → k < i + n
      → Repeated k
      → suc k ≡ seg.end
  unfolding warn_steps
  warn_steps-eq-nil seg i zero e k low high r = absurd (omega arith)
  warn_steps-eq-nil seg i (suc n) e k low high r =
      let (calm, rest) =
        if_cons-eq-nil (warns from_bytes steps seg i) (unsafe_warning i seg)
          (warn_steps from_bytes steps seg (suc i) n) e in
      elim (first-cases i k low) [
        | inl now ↦
            warns-eq-false seg k (subst (λ j. warns from_bytes steps seg j ≡ false) now calm) r
        | inr after ↦ warn_steps-eq-nil seg (suc i) n rest k after (omega arith) r
      ]

  warn_steps-nil :
      (seg : Segment) (i n : ℕ)
      → ((k : ℕ) → i ≤ k → k < i + n → Repeated k → suc k ≡ seg.end)
      → warn_steps from_bytes steps seg i n ≡ []
  unfolding warn_steps
  warn_steps-nil seg i zero h = refl
  warn_steps-nil seg i (suc n) h =
      let calm = warns-false seg i (h i (omega arith) (omega arith)) in
      let rest = warn_steps-nil seg (suc i) n λ k low high r. h k (omega arith) (omega arith) r in
      rw (calm, rest) refl

  warn_segments-eq-nil :
      (n a : ℕ) (segs : List Segment)
      → Tiles a n segs
      → warn_segments from_bytes steps segs ≡ []
      → (i : ℕ) → a ≤ i
      → i < n
      → Repeated i
      → (suc i ≡ n) ⊎ In (suc i) (starts segs)
  unfolding warn_segments
  warn_segments-eq-nil n a [] h e i low high r = absurd (omega arith)
  warn_segments-eq-nil n a (seg ∷ segs) (e, lt, later) quiet i low high r =
      let (now, after) =
        append-eq-nil (warn_steps from_bytes steps seg seg.start (seg.end - seg.start))
          (warn_segments from_bytes steps segs) quiet in
      elim (split-cases i (seg.end)) [
        | inl inside ↦
            let stop : suc i ≡ seg.end =
              warn_steps-eq-nil seg seg.start (seg.end - seg.start) now i (omega arith)
                (omega arith) r in
            or_later (
              subst (λ j. (j ≡ n) ⊎ In j (starts segs)) (sym stop)
                (Tiles-head n seg.end segs later))
        | inr beyond ↦ or_later (warn_segments-eq-nil n seg.end segs later after i beyond high r)
      ]

  warn_segments-nil :
      (n a : ℕ) (segs : List Segment)
      → Tiles a n segs
      → ((i : ℕ) → a ≤ i → i < n → Repeated i → (suc i ≡ n) ⊎ In (suc i) (starts segs))
      → warn_segments from_bytes steps segs ≡ []
  unfolding warn_segments
  warn_segments-nil n a [] t h = refl
  warn_segments-nil n a (seg ∷ segs) (e, lt, later) h =
      let le = Tiles-le n seg.end segs later in
      rw
        (warn_steps-nil seg seg.start (seg.end - seg.start) λ k low high r.
          at_end n seg segs later k (omega arith) (h k (omega arith) (omega arith) r))
        (warn_segments-nil n seg.end segs later
          λ i low high r. drop_first n seg segs (suc i) (omega arith) (h i (omega arith) high r))

map-eq-nil : {A B : Type 0} (f : A → B) (xs : List A) → (map f xs ≡ []) ↔ (xs ≡ [])
map-eq-nil f [] = (λ e. refl, λ e. refl)
map-eq-nil f (x ∷ xs) = (λ e. absurd (ground arith), λ e. absurd (ground arith))

append_iff :
    {A : Type 0} {P Q : Type 0} (xs ys : List A)
    → (xs ≡ []) ↔ P
    → (ys ≡ []) ↔ Q
    → (xs ++ ys ≡ []) ↔ (P × Q)
append_iff [] ys p q = (λ e. (p.0 refl, q.0 e), λ h. q.1 h.1)
append_iff (x ∷ xs) ys p q = (λ e. absurd (ground arith), λ h. absurd (ground (arith, p.1 h.0)))

mode-cases : (m : Mode) → (m ≡ serial) ⊎ ((m ≢ serial) × (is_serial m ≡ false))
mode-cases serial = inl refl
mode-cases parallel = ground arith
mode-cases conditional = ground arith
mode-cases tee = ground arith
mode-cases tee_wait = ground arith

-- Only the first segment starts at the first step.
later_start : {A : Type 0} {B C : Type 0} (j : ℕ) → A ⊎ B → (B ↔ ((j ≡ 0) ⊎ C)) → j ≢ 0 → A ⊎ C
later_start j h cut ne = ground arith

earlier_start : {A : Type 0} {B C : Type 0} (j : ℕ) → A ⊎ C → (B ↔ ((j ≡ 0) ⊎ C)) → A ⊎ B
earlier_start j h cut = ground arith

module _ (from_bytes : Text → Option Method) {F : Type 0} where
  -- A call that a retry may not repeat stands at the end, or before a transform or a split.
  abbrev pub EndsSegment : Steps F → Type 0
  EndsSegment steps =
      (i : ℕ)
      → i < count steps
      → is_repeated from_bytes (step_at steps i) ≡ true
      → (suc i ≡ count steps) ⊎ (cuts_at steps (suc i) ≡ true)

  unfoldable mutual
    -- So it is in the pipeline, if it is serial, and in every pipeline that it nests.
    pub IsRetrySafe : PipelineSpec F → Type 0
    IsRetrySafe (spec parts steps) = (parts.mode ≡ serial → EndsSegment steps) × NestedSafe steps

    pub NestedSafe : Steps F → Type 0
    NestedSafe last_step = Unit
    NestedSafe (step s nested rest) = SubSafe nested × NestedSafe rest

    pub SubSafe : Sub F → Type 0
    SubSafe no_sub = Unit
    SubSafe (sub nested) = IsRetrySafe nested

  -- A serial pipeline of one step at least gives no warning of its own exactly if it is safe.
  linear_iff :
      (s : StepParts F) (nested : Sub F) (rest : Steps F)
      → let steps = step s nested rest in
        (warn_segments from_bytes steps (windows 0 (boundaries 0 0 steps)) ≡ []) ↔ EndsSegment steps
  linear_iff s nested rest =
      let steps = step s nested rest in
      let segs = windows 0 (boundaries 0 0 steps) in
      let (tiles, cut) = segments-IsPartition s nested rest in
      (
        λ quiet i lt r.
            later_start (suc i)
              (warn_segments-eq-nil from_bytes steps (suc (count rest)) 0 segs tiles quiet i
                (omega arith) lt r)
              (cut (suc i)) (ground arith),
        λ safe.
            warn_segments-nil from_bytes steps (suc (count rest)) 0 segs tiles
              λ i low lt r. earlier_start (suc i) (safe i lt r) (cut (suc i)),
      )

  mutual
    unfolding plan linear whole collect_warnings sub_warnings IsRetrySafe

    plan_iff : (p : PipelineSpec F) → ((plan from_bytes p).warnings ≡ []) ↔ IsRetrySafe p
    plan_iff (spec parts last_step) = elim (mode-cases parts.mode) [
      | inl h ↦ rw h (λ e. ((λ k i lt r. absurd (omega arith)), tt), λ safe. refl)
      | inr (ne, h) ↦ rw h (λ e. ((λ k. absurd (ne k)), tt), λ safe. refl)
    ]
    plan_iff (spec parts (step s nested rest)) =
        let within = collect_iff [] 0 (step s nested rest) in
        elim (mode-cases parts.mode) [
          | inl h ↦
              let both =
                append_iff
                  (warn_segments from_bytes (step s nested rest)
                    (windows 0 (boundaries 0 0 (step s nested rest))))
                  (collect_warnings from_bytes [] 0 (step s nested rest)) (linear_iff s nested rest)
                  within in
              rw h (
                λ e. let (own, inner) = both.0 e in ((λ k. own), inner),
                λ safe. both.1 (safe.0 refl, safe.1),
              )
          | inr (ne, h) ↦ rw h (λ e. ((λ k. absurd (ne k)), within.0 e), λ safe. within.1 safe.1)
        ]

    collect_iff :
        (at : Text) (i : ℕ) (steps : Steps F)
        → (collect_warnings from_bytes at i steps ≡ []) ↔ NestedSafe steps
    collect_iff at i last_step = (λ e. tt, λ e. refl)
    collect_iff at i (step s nested rest) =
        append_iff (sub_warnings from_bytes (here at i) nested)
          (collect_warnings from_bytes at (suc i) rest) (sub_iff (here at i) nested)
          (collect_iff at (suc i) rest)

    sub_iff :
        (at : Text) (nested : Sub F) → (sub_warnings from_bytes at nested ≡ []) ↔ SubSafe nested
    sub_iff at no_sub = (λ e. tt, λ e. refl)
    sub_iff at (sub p) =
        let (f, g) = plan_iff p in
        let (h, k) = map-eq-nil (λ w. at ++ (lit ": " ++ w)) ((plan from_bytes p).warnings) in
        (λ e. f (h e), λ safe. k (g safe))

-- The plan of a pipeline gives no warning exactly if, in it and in every pipeline that it nests,
-- if that is serial, each call that may not be repeated is the last step or stands before a
-- transform or a split.
pub plan-warnings_iff :
    (from_bytes : Text → Option Method) {F : Type 0} (p : PipelineSpec F)
    → ((plan from_bytes p).warnings ≡ []) ↔ IsRetrySafe from_bytes p
plan-warnings_iff from_bytes p = plan_iff from_bytes p
