-- ===== src/Authn/Chain.antt =====
-- The outcome of a chain of authenticators.
use rs2_runtime.Common.{
  ℕ, ◌≡◌, ◌≢◌, ◌⊎◌, ◌↔◌, refl, ap, inl, inr, Option, none, some, List, [], ◌∷◌, ◌++◌, All, arith,
}
use rs2_runtime.Error.{Result, ok, err, RsError}
use rs2_runtime.Authn.{
  AuthOutcome, pass, unrecognised, authenticated, Authenticator, get_or_insert, attempt, chain_from,
  authenticate,
}

module _ {M : Type 0} (msg : M) where
  -- The authenticator does not claim the request, and leaves it as it is.
  abbrev pub IsQuiet : Authenticator M → Type 0
  IsQuiet a =
      (a.try_authenticate msg ≡ (msg, ok pass))
      ⊎ ((e : RsError) × (a.try_authenticate msg ≡ (msg, ok (unrecognised e))))

  -- A claim: an error of the authenticator's own, or a principal.
  abbrev pub claims : M → Result (Option ℕ) → M × Result AuthOutcome
  claims after (err e) = (after, err e)
  claims after (ok expires) = (after, ok (authenticated expires))

  attempt-claims :
      (rest : M → Option RsError → M × Result (Option ℕ)) (seen : Option RsError) (after : M)
      (r : Result (Option ℕ))
      → attempt rest seen (claims after r) ≡ (after, r)
  attempt-claims rest seen after (err e) = refl
  attempt-claims rest seen after (ok expires) = refl

  chain_claim :
      (before rest : List (Authenticator M)) (a : Authenticator M) (after : M)
      (r : Result (Option ℕ)) (seen : Option RsError)
      → All IsQuiet before
      → a.try_authenticate msg ≡ claims after r
      → chain_from (before ++ a ∷ rest) msg seen ≡ (after, r)
  unfolding chain_from
  chain_claim [] rest a after r seen q h = rw h (attempt-claims (chain_from rest) seen after r)
  chain_claim (b ∷ before) rest a after r seen (inl p, qs) h =
      rw p (chain_claim before rest a after r seen qs h)
  chain_claim (b ∷ before) rest a after r seen (inr (e, p), qs) h =
      rw p (chain_claim before rest a after r (get_or_insert seen e) qs h)

  -- Where every authenticator before some one leaves a request as it is and does not claim it,
  -- and that one claims it, the outcome is that claim, whatever comes after it.
  pub authenticate_claim :
      (before rest : List (Authenticator M)) (a : Authenticator M) (after : M)
      (r : Result (Option ℕ))
      → All IsQuiet before
      → a.try_authenticate msg ≡ claims after r
      → authenticate (before ++ a ∷ rest) msg ≡ (after, r)
  unfolding authenticate
  authenticate_claim before rest a after r = chain_claim before rest a after r none

  chain_seen :
      (chain : List (Authenticator M)) (e : RsError)
      → All IsQuiet chain
      → chain_from chain msg (some e) ≡ (msg, err e)
  unfolding chain_from
  chain_seen [] e q = refl
  chain_seen (a ∷ chain) e (inl p, qs) = rw p (chain_seen chain e qs)
  chain_seen (a ∷ chain) e (inr (f, p), qs) = rw p (chain_seen chain e qs)

  not_both :
      (e : RsError) → ◌≢◌ {A = M × Result AuthOutcome} (msg, ok (unrecognised e)) (msg, ok pass)
  not_both e h = absurd (ground (arith, ap (λ (x : M × Result AuthOutcome). x.1) h))

  chain_anonymous :
      (chain : List (Authenticator M))
      → All IsQuiet chain
      → ((chain_from chain msg none).0 ≡ msg)
        × (((chain_from chain msg none).1 ≡ ok none)
            ↔ All (λ a. a.try_authenticate msg ≡ (msg, ok pass)) chain)
  unfolding chain_from
  chain_anonymous [] q = (refl, (λ h. tt, λ h. refl))
  chain_anonymous (a ∷ chain) (inl p, qs) =
      let (same, (to, from)) = chain_anonymous chain qs in
      rw p (same, (λ h. (refl, to h), λ (h, hs). from hs))
  chain_anonymous (a ∷ chain) (inr (e, p), qs) =
      let end = chain_seen chain e qs in
      rw (p, end) (refl, (λ h. absurd (ground arith), λ (h, hs). absurd (not_both e h)))

  -- Where no authenticator of the chain claims a request and each leaves it as it is, the request
  -- stays as it is, and it is let through as anonymous exactly when every one of them passes.
  pub authenticate_anonymous_iff :
      (chain : List (Authenticator M))
      → All IsQuiet chain
      → ((authenticate chain msg).0 ≡ msg)
        × (((authenticate chain msg).1 ≡ ok none)
            ↔ All (λ a. a.try_authenticate msg ≡ (msg, ok pass)) chain)
  unfolding authenticate
  authenticate_anonymous_iff chain q = chain_anonymous chain q
