-- ===== src/Scheduler/Cron/Next.antt =====
-- The next occurrence of a cron schedule is the first minute after an instant that matches.
use rs2_runtime.Common.{
  ℕ, zero, suc, ◌+◌, ◌*◌, ◌/◌, ◌≤◌, ◌<◌, ◌≡◌, ◌↔◌, sym, ap, ◌∙◌, subst, ◌==◌, inl, inr, true, false,
  some, leb, leb→le, le→leb, arith, Bool-cases,
}
use mathlib.Core.Bool.{false≢true}
use rs2_runtime.Scheduler.Cron.{
  CronSchedule, Stamp, matches, minute_ns, year_ns, rounds, scan, next_occurrence_after,
}

module _ (calendar : ℕ → Stamp) (s : CronSchedule) (bound : ℕ) where
  -- The first minute from `t` on that matches, within the bound.
  pub record IsFirst (t u : ℕ) : Type 0 where
    pub from : t ≤ u
    pub within : u * minute_ns ≤ bound
    pub hit : matches s (calendar u) ≡ true
    pub first : (v : ℕ) → t ≤ v → v < u → matches s (calendar v) ≡ false

  not_before :
      (t u : ℕ)
      → matches s (calendar t) ≡ false
      → IsFirst (t + 1) u
      → (v : ℕ) → t ≤ v
      → v < u
      → matches s (calendar v) ≡ false
  not_before t u miss later v a b = elim (Bool-cases (t == v)) [
    | inl here ↦
        let same : t ≡ v = ground (arith, here) in
        subst (λ w. matches s (calendar w) ≡ false) same miss
    | inr after ↦ later.first v (ground (arith, a, after)) b
  ]

  scan-IsFirst : (fuel t u : ℕ) → scan calendar s fuel t bound ≡ some u → IsFirst t u
  unfolding scan
  scan-IsFirst zero t u h = absurd (ground arith)
  scan-IsFirst (suc fuel) t u h = elim (Bool-cases (leb (t * minute_ns) bound)) [
    | inr over ↦ absurd (ground (arith, rw over at h))
    | inl room ↦ elim (Bool-cases (matches s (calendar t))) [
      | inl hit ↦
          let same : t ≡ u = ground (arith, rw (room, hit) at h) in
          record {
            from = omega (arith, same);
            within = subst (λ w. w * minute_ns ≤ bound) same (leb→le _ _ room);
            hit = subst (λ w. matches s (calendar w) ≡ true) same hit;
            first = λ v a b. absurd (omega (arith, a, b, same));
          }
      | inr miss ↦
          let later = scan-IsFirst fuel (t + 1) u (rw (room, miss) at h) in
          record {
            from = omega (arith, later.from);
            within = later.within;
            hit = later.hit;
            first = not_before t u miss later;
          }
    ]
  ]

  IsFirst-scan :
      (fuel t u : ℕ)
      → bound < (t + fuel) * minute_ns
      → IsFirst t u
      → scan calendar s fuel t bound ≡ some u
  unfolding scan
  IsFirst-scan zero t u enough f = absurd (omega (arith, f.from, f.within))
  IsFirst-scan (suc fuel) t u enough f =
      let room : leb (t * minute_ns) bound ≡ true =
        le→leb (t * minute_ns) bound (omega (arith, f.from, f.within)) in
      elim (Bool-cases (matches s (calendar t))) [
        | inl hit ↦ elim (Bool-cases (t == u)) [
          | inl here ↦ rw (room, hit) (ground (arith, here))
          | inr after ↦
              absurd
                (false≢true (sym (f.first t (omega arith) (ground (arith, f.from, after))) ∙ hit))
        ]
        | inr miss ↦ elim (Bool-cases (t == u)) [
          | inl here ↦
              let same : t ≡ u = ground (arith, here) in
              absurd (false≢true (sym miss ∙ (ap (λ w. matches s (calendar w)) same ∙ f.hit)))
          | inr after ↦
              rw (room, miss)
                (IsFirst-scan fuel (t + 1) u (omega (arith, enough)) (record {
                  from = ground (arith, f.from, after);
                  within = f.within;
                  hit = f.hit;
                  first = λ v a b. f.first v (omega (arith, a)) b;
                }))
        ]
      ]

-- The search finds a minute exactly when it is the first after the instant, to the minute, that
-- the schedule matches, and is within 366 days.
pub next_occurrence_iff :
    (calendar : ℕ → Stamp) (s : CronSchedule) (after u : ℕ)
    → (next_occurrence_after calendar s after ≡ some u)
      ↔ IsFirst calendar s (after + year_ns) (after / minute_ns + 1) u
unfolding next_occurrence_after
next_occurrence_iff calendar s after u = (
  scan-IsFirst calendar s (after + year_ns) rounds (after / minute_ns + 1) u,
  IsFirst-scan calendar s (after + year_ns) rounds (after / minute_ns + 1) u (omega arith),
)
