-- ===== src/Wrapper/Breaker/Trips.antt =====
-- When a breaker opens, what an open one refuses, and which tenants it concerns.
use rs2_runtime.Common.{
  ℕ, ◌+◌, ◌-◌, ◌^◌, ◌≤◌, ◌<◌, ◌≡◌, ◌≢◌, ◌↔◌, refl, sym, ap, ◌∙◌, inl, inr, Option, none, some, List,
  [], ◌∷◌, ◌++◌, length, arith, keep, Option-cases,
}
use rs2_runtime.Common.Dict.{insert_self, insert_ne}
use rs2_runtime.Common.Text.{Text}
use rs2_runtime.Error.{ok, err, RsError}
use rs2_runtime.Wrapper.{LimitTable}
use rs2_runtime.Wrapper.Breaker.{
  BreakerState, fresh, States, check, check_limit, breaker_error, opened, breach, record_breach,
  or_default,
}
use rs2_runtime.Wrapper.Breaker.Window.{
  Ascending, last_of, record_all, in_window, record_all-window,
}

module _ (tenant other : Text) (limits : LimitTable) (now : ℕ) (states : States)
    (apart : tenant ≢ other) where
  check_limit_ne : (o : Option ℕ) → (check_limit tenant now o states).0 other ≡ states other
  check_limit_ne none = refl
  check_limit_ne (some limit) = ground (arith, insert_ne tenant other fresh states)

  -- What the breaker does for one tenant leaves the breaker of every other tenant alone.
  pub breaker_isolation :
      ((record_breach tenant limits now states) other ≡ states other)
      × ((check tenant now states).0 other ≡ states other)
  unfolding record_breach check
  breaker_isolation =
      (insert_ne tenant other _ states apart, check_limit_ne (opened (states tenant)))

module _ (tenant : Text) (states : States) where
  -- A tenant is refused exactly while its breaker is open, with a retry delay of what is left.
  pub check_refuses_iff :
      (now : ℕ) (e : RsError)
      → ((check tenant now states).1 ≡ err e) ↔ (
          (limit : ℕ) × (opened (states tenant) ≡ some limit)
          × (now < limit)
          × (e ≡ breaker_error tenant (limit - now)))
  unfolding check
  check_refuses_iff now e = elim (Option-cases (opened (states tenant))) [
    | inl never ↦ (λ h. absurd (ground (arith, never)), λ (l, p, _, _). absurd (ground arith))
    | inr (limit, since) ↦ (
      λ h. (limit, since, ground (arith, since), ground (arith, since)),
      λ (l, p, q, r). let same : l ≡ limit = ground arith in ground (arith, same, since),
    )
  ]

  -- Once the cooldown is over, a check lets the tenant through and clears its breaker.
  pub check_half_open :
      (now limit : ℕ)
      → opened (states tenant) ≡ some limit
      → limit ≤ now
      → ((check tenant now states).1 ≡ ok tt) × ((check tenant now states).0 tenant ≡ some fresh)
  unfolding check
  check_half_open now limit e h = ground (arith, insert_self tenant fresh states)

-- The state of a tenant after breaches at the instants of a list, from none.
abbrev pub breaches : Text → LimitTable → States → List ℕ → States
breaches tenant limits states [] = states
breaches tenant limits states (t ∷ ts) =
    breaches tenant limits (record_breach tenant limits t states) ts

module _ (tenant : Text) (limits : LimitTable) where
  breaches-eq-record_all :
      (ts : List ℕ) (states : States) (s : BreakerState)
      → or_default (states tenant) ≡ s
      → or_default (breaches tenant limits states ts tenant) ≡ record_all limits s ts
  unfolding record_breach
  breaches-eq-record_all [] states s e = e
  breaches-eq-record_all (t ∷ ts) states s e =
      breaches-eq-record_all ts (record_breach tenant limits t states) (breach limits t s) (
        ap or_default (insert_self tenant (breach limits t (or_default (states tenant))) states)
        ∙ ap (breach limits t) e)

  breach-trips :
      (now : ℕ) (s : BreakerState)
      → length (breach limits now s).recent_breaches < 2 ^ 32
      → limits.breaker_threshold ≤ length (breach limits now s).recent_breaches
      → (breach limits now s).open_until ≡ some (now + limits.breaker_cooldown)
  unfolding breach
  breach-trips now s small h = ground arith

record_all-append :
    (limits : LimitTable) (ts : List ℕ) (now : ℕ) (s : BreakerState)
    → record_all limits s (ts ++ now ∷ []) ≡ breach limits now (record_all limits s ts)
record_all-append limits [] now s = refl
record_all-append limits (t ∷ ts) now s = record_all-append limits ts now (breach limits t s)

last_of-append : (ts : List ℕ) (before now : ℕ) → last_of before (ts ++ now ∷ []) ≡ now
last_of-append [] before now = refl
last_of-append (t ∷ ts) before now = last_of-append ts t now

opened-or_default : (o : Option BreakerState) → opened o ≡ (or_default o).open_until
opened-or_default none = refl
opened-or_default (some s) = refl

-- A tenant with no breaker state that breaches its limits at instants in the order of time, of
-- which the window covers at least the threshold (and fewer than 2^32) at the last, is refused at
-- every instant before the cooldown is over, with the delay that is left.
pub breaker_trips :
    (tenant : Text) (limits : LimitTable) (states : States) (ts : List ℕ) (now t : ℕ)
    → states tenant ≡ none
    → Ascending 0 (ts ++ now ∷ [])
    → limits.breaker_threshold
      ≤ length (keep (in_window now limits.breaker_window) (ts ++ now ∷ []))
    → length (keep (in_window now limits.breaker_window) (ts ++ now ∷ [])) < 2 ^ 32
    → t < now + limits.breaker_cooldown
    → (check tenant t (breaches tenant limits states (ts ++ now ∷ []))).1
      ≡ err (breaker_error tenant (now + limits.breaker_cooldown - t))
breaker_trips tenant limits states ts now t unseen ascending many few early =
    let s = record_all limits fresh ts in
    let recent : (breach limits now s).recent_breaches
        ≡ keep (in_window now limits.breaker_window) (ts ++ now ∷ []) =
      ap (λ (r : BreakerState). r.recent_breaches) (sym (record_all-append limits ts now fresh))
      ∙ (record_all-window limits (ts ++ now ∷ []) ascending
          ∙ ap (λ l. keep (in_window l limits.breaker_window) (ts ++ now ∷ []))
              (last_of-append ts 0 now)) in
    let trips = breach-trips tenant limits now s (rw recent few) (rw recent many) in
    let state =
      breaches-eq-record_all tenant limits (ts ++ now ∷ []) states fresh (ap or_default unseen) in
    let since : opened (breaches tenant limits states (ts ++ now ∷ []) tenant)
        ≡ some (now + limits.breaker_cooldown) =
      opened-or_default (breaches tenant limits states (ts ++ now ∷ []) tenant)
      ∙ (ap (λ (r : BreakerState). r.open_until) (state ∙ record_all-append limits ts now fresh)
          ∙ trips) in
    (check_refuses_iff tenant (breaches tenant limits states (ts ++ now ∷ [])) t
        (breaker_error tenant (now + limits.breaker_cooldown - t))).1
      (now + limits.breaker_cooldown, since, early, refl)
