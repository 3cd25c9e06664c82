-- ===== src/Outbound/Allowed.antt =====
-- What an authorized call is allowed by.
use rs2_runtime.Common.{
  ℕ, suc, ◌≡◌, refl, ap, subst, ◌∙◌, Bool, true, false, Bool-cases, inl, inr, Option, none, some,
  List, [], ◌∷◌, All, get_elem?, take,
}
use rs2_runtime.Common.Text.{Text}
use rs2_runtime.Error.{ok}
use rs2_runtime.Error.Bind.{bind-ok, ok-injective, if-ok}
use rs2_runtime.Outbound.{
  HostGrant, ExternalDispatch, allows, position, moved, needs_url, granted, url_host, authorize,
}

-- The grant that comes first of those that satisfy `p`.
abbrev pub IsFirst : (HostGrant → Bool) → List HostGrant → ℕ → Type 0
IsFirst p gs i =
    ((g : HostGrant) × (get_elem? gs i ≡ some g) × (p g ≡ true))
    × All (λ g. p g ≡ false) (take i gs)

some-injective : {A : Type 0} (a b : A) → some a ≡ some b → a ≡ b
some-injective a b h = cc

moved-some : (o : Option ℕ) (i : ℕ) → moved o ≡ some i → (j : ℕ) × (o ≡ some j) × (suc j ≡ i)
moved-some none i h = absurd (cc)
moved-some (some j) i h = (j, refl, some-injective (suc j) i h)

position-IsFirst :
    (p : HostGrant → Bool) (gs : List HostGrant) (i : ℕ) → position p gs ≡ some i → IsFirst p gs i
unfolding position
position-IsFirst p [] i h = absurd (cc)
position-IsFirst p (g ∷ gs) i h = elim (Bool-cases (p g)) [
  | inl hit ↦ subst (IsFirst p (g ∷ gs)) (some-injective 0 i (rw hit at h)) ((g, refl, hit), tt)
  | inr miss ↦
      let (j, e, same) = moved-some (position p gs) i (rw miss at h) in
      let (here, before) = position-IsFirst p gs j e in
      subst (IsFirst p (g ∷ gs)) same (here, (miss, before))
]

granted-IsFirst :
    (ext : ExternalDispatch) (host : Text) (o : Option ℕ) (i : ℕ)
    → position (allows host) ext.grants ≡ o
    → granted ext host o ≡ ok i
    → (ext.has_http ≡ true) × IsFirst (allows host) ext.grants i
granted-IsFirst ext host none i e h = absurd (cc)
granted-IsFirst ext host (some j) i e h =
    let (wired, same) = if-ok ext.has_http (ok j) _ i h in
    (wired, position-IsFirst (allows host) ext.grants i (e ∙ ap some (ok-injective j i same)))

needs_url-host :
    (url : Text) (o : Option Text) (host : Text) → needs_url url o ≡ ok host → o ≡ some host
needs_url-host url none host h = absurd (cc)
needs_url-host url (some a) host h = ap some (ok-injective a host h)

-- An authorized URL has a host, there is an adapter to send with, and the grant that is given is
-- the first whose host pattern allows the host.
pub authorize-IsFirst :
    (ext : ExternalDispatch) (url : Text) (i : ℕ)
    → authorize ext url ≡ ok i
    → (ext.has_http ≡ true)
      × ((host : Text) × (url_host url ≡ some host) × IsFirst (allows host) ext.grants i)
unfolding authorize
authorize-IsFirst ext url i h =
    let (host, e, k) = bind-ok (needs_url url (url_host url)) _ i h in
    let (wired, first) = granted-IsFirst ext host (position (allows host) ext.grants) i refl k in
    (wired, (host, needs_url-host url (url_host url) host e, first))
