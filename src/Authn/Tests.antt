-- ===== src/Authn/Tests.antt =====
-- Chains of an authenticator that claims and two that do not, and the theorems at them.
use rs2_runtime.Common.{◌≡◌, ◌↔◌, refl, inl, inr, false, none, some, [], ◌∷◌, All}
use rs2_runtime.Common.Text.{Text, lit}
use rs2_runtime.Error.{ok, unauthorized}
use rs2_runtime.Authn.{Authenticator, pass, unrecognised, authenticated, authenticate}
use rs2_runtime.Authn.Chain.{authenticate_anonymous_iff}

-- The message is the name of its principal.
abbrev passer : Authenticator Text
passer = record { ambient_credential = λ m. false; try_authenticate = λ m. (m, ok pass) }

abbrev puzzled : Authenticator Text
puzzled = record {
  ambient_credential = λ m. false;
  try_authenticate = λ m. (m, ok (unrecognised (unauthorized (lit "what is this?"))));
}

abbrev knows : Authenticator Text
knows = record {
  ambient_credential = λ m. false;
  try_authenticate = λ m. (lit "ann", ok (authenticated (some 9)));
}

authenticate_anonymous_iff_example :
    ((authenticate (passer ∷ puzzled ∷ []) (lit "?")).0 ≡ lit "?")
    × (((authenticate (passer ∷ puzzled ∷ []) (lit "?")).1 ≡ ok none)
        ↔ All (λ a. a.try_authenticate (lit "?") ≡ (lit "?", ok pass)) (passer ∷ puzzled ∷ []))
authenticate_anonymous_iff_example =
    authenticate_anonymous_iff (lit "?") (passer ∷ puzzled ∷ [])
      (inl refl, (inr (unauthorized (lit "what is this?"), refl), tt))
