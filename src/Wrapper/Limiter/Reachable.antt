-- ===== src/Wrapper/Limiter/Reachable.antt =====
-- The limiter under any sequence of admissions and drops of permits, where every admission of a
-- tenant has the same cap.
use rs2_runtime.Common.{
  ℕ, zero, suc, ◌+◌, ◌-◌, ◌≤◌, ◌<◌, ◌≡◌, ◌↔◌, refl, subst, inl, inr, Option, none, some, arith,
  Bool-cases,
}
use rs2_runtime.Common.Text.{Text, text_eq, text_eq_iff}
use rs2_runtime.Error.{err}
use rs2_runtime.Wrapper.Limiter.{Limiter, new, free_permits, at_cap, acquire, admit, release}

module _ (cap : Text → ℕ) where
  -- The states that the limiter can come to.
  pub data IsReachable : Limiter → Type 0 where
    start : IsReachable new
    admitted :
        (tenant : Text) (l : Limiter) → IsReachable l → IsReachable (admit tenant (cap tenant) l).0
    released :
        (tenant : Text) (l : Limiter)
        → 0 < l.held tenant
        → IsReachable l
        → IsReachable (release tenant l)

  -- The permits of a tenant, free or held, are as many as its cap, and none is held before the
  -- semaphore is there.
  abbrev pub IsBalanced : Option ℕ → ℕ → ℕ → Type 0
  IsBalanced none held cap = held ≡ 0
  IsBalanced (some free) held cap = free + held ≡ cap

  free-held :
      (o : Option ℕ) (held most : ℕ) → IsBalanced o held most → free_permits o most + held ≡ most
  free-held none held most h = omega (arith, h)
  free-held (some free) held most h = h

  acquire-IsBalanced :
      (tenant t : Text) (free : ℕ) (l : Limiter)
      → free + l.held tenant ≡ cap tenant
      → IsBalanced (l.semaphores t) (l.held t) (cap t)
      → IsBalanced
          ((acquire tenant (cap tenant) free l).0.semaphores t)
          ((acquire tenant (cap tenant) free l).0.held t)
          (cap t)
  acquire-IsBalanced tenant t zero l h b = elim (Bool-cases (text_eq tenant t)) [
    | inl same ↦ rw same (subst (λ k. 0 + l.held k ≡ cap k) ((text_eq_iff tenant t).0 same) h)
    | inr other ↦ rw other b
  ]
  acquire-IsBalanced tenant t (suc free) l h b = elim (Bool-cases (text_eq tenant t)) [
    | inl same ↦
        let e = (text_eq_iff tenant t).0 same in
        rw same (subst (λ k. free + (l.held tenant + 1) ≡ cap k) e (omega (arith, h)))
    | inr other ↦ rw other b
  ]

  one_back :
      (o : Option ℕ) (held most : ℕ)
      → 0 < held
      → IsBalanced o held most
      → free_permits o 0 + 1 + (held - 1) ≡ most
  one_back none held most h b = absurd (omega (arith, h, b))
  one_back (some free) held most h b = omega (arith, h, b)

  release-IsBalanced :
      (tenant t : Text) (l : Limiter)
      → 0 < l.held tenant
      → IsBalanced (l.semaphores tenant) (l.held tenant) (cap tenant)
      → IsBalanced (l.semaphores t) (l.held t) (cap t)
      → IsBalanced ((release tenant l).semaphores t) ((release tenant l).held t) (cap t)
  unfolding release
  release-IsBalanced tenant t l some_held own b = elim (Bool-cases (text_eq tenant t)) [
    | inr other ↦ rw other b
    | inl same ↦
        let e = (text_eq_iff tenant t).0 same in
        rw same (
          subst (λ k. free_permits (l.semaphores tenant) 0 + 1 + (l.held tenant - 1) ≡ cap k) e
            (one_back (l.semaphores tenant) (l.held tenant) (cap tenant) some_held own))
  ]

  -- In every state that it can come to, the permits of a tenant are balanced.
  reachable-IsBalanced :
      (l : Limiter) → IsReachable l → (t : Text) → IsBalanced (l.semaphores t) (l.held t) (cap t)
  unfolding admit
  reachable-IsBalanced l start t = refl
  reachable-IsBalanced l (admitted tenant k r) t =
      acquire-IsBalanced tenant t (free_permits (k.semaphores tenant) (cap tenant)) k
        (free-held (k.semaphores tenant) (k.held tenant) (cap tenant)
          (reachable-IsBalanced k r tenant))
        (reachable-IsBalanced k r t)
  reachable-IsBalanced l (released tenant k some_held r) t =
      release-IsBalanced tenant t k some_held (reachable-IsBalanced k r tenant)
        (reachable-IsBalanced k r t)

  acquire-refuses :
      (free : ℕ) (tenant : Text) (l : Limiter)
      → free + l.held tenant ≡ cap tenant
      → ((acquire tenant (cap tenant) free l).1 ≡ err (at_cap (cap tenant)))
        ↔ (l.held tenant ≡ cap tenant)
  acquire-refuses zero tenant l h = (λ e. omega (arith, h), λ e. refl)
  acquire-refuses (suc free) tenant l h =
      (λ e. absurd (ground arith), λ e. absurd (omega (arith, h, e)))

  -- In every state that it can come to, where a tenant is always admitted with the same cap, the
  -- tenant holds at most as many permits as its cap, and is refused exactly when it holds them
  -- all.
  pub admit_refuses_iff :
      (l : Limiter) (tenant : Text)
      → IsReachable l
      → (l.held tenant ≤ cap tenant)
        × (((admit tenant (cap tenant) l).1 ≡ err (at_cap (cap tenant)))
            ↔ (l.held tenant ≡ cap tenant))
  unfolding admit
  admit_refuses_iff l tenant r =
      let h =
        free-held (l.semaphores tenant) (l.held tenant) (cap tenant)
          (reachable-IsBalanced l r tenant) in
      (
        omega (arith, h),
        acquire-refuses (free_permits (l.semaphores tenant) (cap tenant)) tenant l h,
      )
