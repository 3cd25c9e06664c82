-- ===== src/Scheduler/Claims.antt =====
-- `MemScheduleStore::claim`: an occurrence is claimed once while its claim is remembered.
use rs2_runtime.Common.{
  ℕ, ◌+◌, ◌≤◌, ◌<◌, ◌≡◌, ◌⊎◌, refl, inl, inr, Bool, true, false, List, [], ◌∷◌, ltb, keep, arith,
  Bool-cases, if◌then◌else◌, lt→ltb,
}
use rs2_runtime.Common.Text.{Text, text_eq, text_eq_iff}

-- The claims with the instants at which they expire; a list stands for the map.
abbrev pub Claims : Type 0
Claims = List (Text × ℕ)

abbrev pub is_claimed : Text → Claims → Bool
is_claimed key [] = false
is_claimed key ((k, expires) ∷ claims) =
    let rest = is_claimed key claims in if text_eq k key then true else rest

abbrev pub unexpired : ℕ → Text × ℕ → Bool
unexpired now (k, expires) = ltb now expires

-- `key` is the composite of the schedule's key and the occurrence.
unfoldable pub claim : Text → ℕ → ℕ → Claims → Claims × Bool
claim key ttl now claims =
    let live = keep (unexpired now) claims in
    if is_claimed key live then (live, false) else ((key, now + ttl) ∷ live, true)

-- Claims by any callers: their keys, times to live and instants.
abbrev pub claim_all : List (Text × ℕ × ℕ) → Claims → Claims
claim_all [] claims = claims
claim_all ((key, ttl, now) ∷ calls) claims = claim_all calls (claim key ttl now claims).0

abbrev pub Before : ℕ → List (Text × ℕ × ℕ) → Type 0
Before limit [] = Unit
Before limit ((key, ttl, now) ∷ calls) = (now < limit) × Before limit calls

-- A claim that is remembered until an instant at least.
abbrev pub IsHeld : Text → ℕ → Claims → Type 0
IsHeld key limit [] = ⊥
IsHeld key limit ((k, expires) ∷ claims) = ((k ≡ key) × (limit ≤ expires)) ⊎ IsHeld key limit claims

keep-IsHeld :
    (key : Text) (limit now : ℕ) (claims : Claims)
    → now < limit
    → IsHeld key limit claims
    → IsHeld key limit (keep (unexpired now) claims)
keep-IsHeld key limit now [] h m = m
keep-IsHeld key limit now ((k, expires) ∷ claims) h (inl (same, long)) =
    rw (lt→ltb now expires (omega (arith, h, long))) (inl (same, long))
keep-IsHeld key limit now ((k, expires) ∷ claims) h (inr m) = elim (Bool-cases (ltb now expires)) [
  | inl stays ↦ rw stays (inr (keep-IsHeld key limit now claims h m))
  | inr goes ↦ rw goes (keep-IsHeld key limit now claims h m)
]

is_claimed_held :
    (key : Text) (limit : ℕ) (claims : Claims)
    → IsHeld key limit claims
    → is_claimed key claims ≡ true
is_claimed_held key limit [] m = elim m [ ]
is_claimed_held key limit ((k, expires) ∷ claims) (inl (same, long)) =
    rw ((text_eq_iff k key).1 same) refl
is_claimed_held key limit ((k, expires) ∷ claims) (inr m) =
    ground (arith, is_claimed_held key limit claims m)

claim-IsHeld :
    (key other : Text) (limit ttl now : ℕ) (claims : Claims)
    → now < limit
    → IsHeld key limit claims
    → IsHeld key limit (claim other ttl now claims).0
unfolding claim
claim-IsHeld key other limit ttl now claims h m =
    elim (Bool-cases (is_claimed other (keep (unexpired now) claims))) [
      | inl taken ↦ rw taken (keep-IsHeld key limit now claims h m)
      | inr free ↦ rw free (inr (keep-IsHeld key limit now claims h m))
    ]

claim_all-IsHeld :
    (key : Text) (limit : ℕ) (calls : List (Text × ℕ × ℕ)) (claims : Claims)
    → Before limit calls
    → IsHeld key limit claims
    → IsHeld key limit (claim_all calls claims)
claim_all-IsHeld key limit [] claims b m = m
claim_all-IsHeld key limit ((other, ttl, now) ∷ calls) claims (h, b) m =
    claim_all-IsHeld key limit calls (claim other ttl now claims).0 b
      (claim-IsHeld key other limit ttl now claims h m)

-- Once an occurrence is claimed, no claim of it before the time to live is over wins again,
-- whatever claims were made in between.
pub claim-IsOnce :
    (key : Text) (ttl now later again : ℕ) (calls : List (Text × ℕ × ℕ)) (claims : Claims)
    → (claim key ttl now claims).1 ≡ true
    → Before (now + ttl) calls
    → later < now + ttl
    → (claim key again later (claim_all calls (claim key ttl now claims).0)).1 ≡ false
unfolding claim
claim-IsOnce key ttl now later again calls claims won b h =
    elim (Bool-cases (is_claimed key (keep (unexpired now) claims))) [
      | inl taken ↦ absurd (ground (arith, rw taken at won))
      | inr free ↦
          let start = (key, now + ttl) ∷ keep (unexpired now) claims in
          let held : IsHeld key (now + ttl) start = inl (refl, omega arith) in
          rw
            (
              free,
              is_claimed_held key (now + ttl) _ (
                  keep-IsHeld key (now + ttl) later _ h
                    (claim_all-IsHeld key (now + ttl) calls start b held)),
            )
            refl
    ]
