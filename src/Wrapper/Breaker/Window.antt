-- ===== src/Wrapper/Breaker/Window.antt =====
-- The queue of a breaker is exactly the breaches that its window still covers.
use rs2_runtime.Common.{
  ℕ, ◌-◌, ◌≤◌, ◌≡◌, refl, sym, ap, ◌∙◌, inl, inr, Bool, true, List, [], ◌∷◌, ◌++◌, ltb, arith, keep,
  not, Bool-cases, All, subst,
}
use mathlib.Core.List.{append-nil, append_assoc}
use rs2_runtime.Wrapper.{LimitTable}
use rs2_runtime.Wrapper.Breaker.{BreakerState, fresh, pop_old, breach}

-- The instants do not go back, and none is after `now`.
abbrev pub IsHistory : ℕ → List ℕ → Type 0
IsHistory now [] = Unit
IsHistory now (t ∷ ts) = (t ≤ now) × All (λ u. t ≤ u) ts × IsHistory now ts

abbrev pub in_window : ℕ → ℕ → ℕ → Bool
in_window now window t = not (ltb window (now - t))

keep-All :
    (now window t : ℕ) (ts : List ℕ)
    → now - t ≤ window
    → All (λ u. t ≤ u) ts
    → keep (in_window now window) ts ≡ ts
keep-All now window t [] h k = refl
keep-All now window t (u ∷ ts) h (k, ks) = ground (arith, keep-All now window t ts h ks)

pop_old-eq-keep :
    (now window : ℕ) (ts : List ℕ)
    → IsHistory now ts
    → pop_old now window ts ≡ keep (in_window now window) ts
unfolding pop_old
pop_old-eq-keep now window [] h = refl
pop_old-eq-keep now window (t ∷ ts) (le, first, h) = elim (Bool-cases (ltb window (now - t))) [
  | inl old ↦ rw old (pop_old-eq-keep now window ts h)
  | inr new ↦ rw new (ap (λ us. t ∷ us) (sym (keep-All now window t ts (ground arith) first)))
]

-- What a window keeps of what an earlier one kept is what it keeps of the whole.
keep-keep :
    (now later window : ℕ) (ts us : List ℕ)
    → now ≤ later
    → keep (in_window later window) (keep (in_window now window) ts ++ us)
      ≡ keep (in_window later window) (ts ++ us)
keep-keep now later window [] us h = refl
keep-keep now later window (t ∷ ts) us h = elim (Bool-cases (ltb window (now - t))) [
  | inl old ↦
      let still : ltb window (later - t) ≡ true = ground arith in
      rw (old, still) (keep-keep now later window ts us h)
  | inr new ↦ elim (Bool-cases (ltb window (later - t))) [
    | inl gone ↦ rw (new, gone) (keep-keep now later window ts us h)
    | inr kept ↦ rw (new, kept) (ap (λ vs. t ∷ vs) (keep-keep now later window ts us h))
  ]
]

All-keep :
    (P : ℕ → Type 0) (p : ℕ → Bool) (ts us : List ℕ) → All P ts → All P us → All P (keep p ts ++ us)
All-keep P p [] us h k = k
All-keep P p (t ∷ ts) us (q, h) k = elim (Bool-cases (p t)) [
  | inl stays ↦ rw stays (q, All-keep P p ts us h k)
  | inr goes ↦ rw goes (All-keep P p ts us h k)
]

IsHistory-snoc :
    (now later : ℕ) (p : ℕ → Bool) (ts : List ℕ)
    → now ≤ later
    → IsHistory now ts
    → IsHistory later (keep p ts ++ later ∷ [])
IsHistory-snoc now later p [] h k = (omega arith, tt, tt)
IsHistory-snoc now later p (t ∷ ts) h (le, first, k) = elim (Bool-cases (p t)) [
  | inl stays ↦ rw stays (
    omega arith,
    All-keep (λ u. t ≤ u) p ts (later ∷ []) first (omega arith),
    IsHistory-snoc now later p ts h k,
  )
  | inr goes ↦ rw goes (IsHistory-snoc now later p ts h k)
]

keep-true : (ts : List ℕ) → keep (λ t. true) ts ≡ ts
keep-true [] = refl
keep-true (t ∷ ts) = ap (λ us. t ∷ us) (keep-true ts)

-- The breaches of a tenant, in the order of their instants.
abbrev pub record_all : LimitTable → BreakerState → List ℕ → BreakerState
record_all limits state [] = state
record_all limits state (t ∷ ts) = record_all limits (breach limits t state) ts

abbrev pub Ascending : ℕ → List ℕ → Type 0
Ascending now [] = Unit
Ascending now (t ∷ ts) = (now ≤ t) × Ascending t ts

abbrev pub last_of : ℕ → List ℕ → ℕ
last_of now [] = now
last_of now (t ∷ ts) = last_of t ts

module _ (limits : LimitTable) where
  recent-breach :
      (now : ℕ) (state : BreakerState)
      → (breach limits now state).recent_breaches
        ≡ pop_old now limits.breaker_window (state.recent_breaches ++ now ∷ [])
  unfolding breach
  recent-breach now state = ground arith

  -- One more breach, after a history that the queue has as its window keeps it.
  pub breach-recent :
      (before now : ℕ) (past : List ℕ) (state : BreakerState)
      → IsHistory before past
      → before ≤ now
      → state.recent_breaches ≡ keep (in_window before limits.breaker_window) past
      → (breach limits now state).recent_breaches
        ≡ keep (in_window now limits.breaker_window) (past ++ now ∷ [])
  breach-recent before now past state h le e =
      recent-breach now state
      ∙ (ap (λ q. pop_old now limits.breaker_window (q ++ now ∷ [])) e
          ∙ (pop_old-eq-keep now limits.breaker_window _
                (IsHistory-snoc before now (in_window before limits.breaker_window) past le h)
              ∙ keep-keep before now limits.breaker_window past (now ∷ []) le))

  record_all-recent :
      (ts : List ℕ) (before : ℕ) (past : List ℕ) (state : BreakerState)
      → IsHistory before past
      → Ascending before ts
      → state.recent_breaches ≡ keep (in_window before limits.breaker_window) past
      → (record_all limits state ts).recent_breaches
        ≡ keep (in_window (last_of before ts) limits.breaker_window) (past ++ ts)
  record_all-recent [] before past state h a e =
      e ∙ ap (keep (in_window before limits.breaker_window)) (sym (append-nil past))
  record_all-recent (t ∷ ts) before past state h (le, a) e =
      record_all-recent ts t (past ++ t ∷ []) (breach limits t state)
        (subst (λ us. IsHistory t (us ++ t ∷ [])) (keep-true past)
          (IsHistory-snoc before t (λ u. true) past le h))
        a (breach-recent before t past state h le e)
      ∙ ap (keep (in_window (last_of t ts) limits.breaker_window)) (append_assoc past (t ∷ []) ts)

  -- After any breaches in the order of time, the queue of a fresh breaker holds exactly those
  -- which the window still covers at the last one.
  pub record_all-window :
      (ts : List ℕ)
      → Ascending 0 ts
      → (record_all limits fresh ts).recent_breaches
        ≡ keep (in_window (last_of 0 ts) limits.breaker_window) ts
  record_all-window ts a = record_all-recent ts 0 [] fresh tt a refl
