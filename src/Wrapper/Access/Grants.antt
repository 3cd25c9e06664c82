-- ===== src/Wrapper/Access/Grants.antt =====
-- The role specs as a list of grants, and when a caller holds one.
use rs2_runtime.Common.{
  ◌≡◌, ◌↔◌, refl, sym, ◌∙◌, ◌⊎◌, inl, inr, Bool, true, Option, none, some, List, [], ◌∷◌, ◌++◌,
  if◌then◌else◌, arith, In, any-eq-true, any_of_In, Bool-cases, or-cases, or_right, ◌||◌, ◌&&◌,
  subst,
}
use mathlib.Core.Bool.{and-eq-true_iff}
use mathlib.Core.List.{append_assoc}
use rs2_runtime.Common.Text.{
  Text, lit, text_eq, text_eq_iff, text_eq_refl, contains, starts_with, starts_with-eq-true,
  starts_with-append,
}
use rs2_runtime.Message.{Principal}
use rs2_runtime.Wrapper.Access.{role_ok, covers, resolve_pattern, satisfies}

-- A role, with the pattern that scopes it where the token behind it begins with a slash.
abbrev pub grants : List Text → List (Text × Option Text)
grants [] = []
grants (role ∷ []) = (role, none) ∷ []
grants (role ∷ next ∷ tokens) =
    let scoped = grants tokens in
    let plain = grants (next ∷ tokens) in
    if starts_with (lit "/") next then (role, some next) ∷ scoped else (role, none) ∷ plain

abbrev pub HoldsRole : Option Principal → Text → Type 0
HoldsRole none role = role ≡ lit "all"
HoldsRole (some p) role = (role ≡ lit "all") ⊎ (role ≡ lit "authenticated") ⊎ In role p.roles

-- The path is the pattern with the principal's id and claims put in, or lies below it.
abbrev pub InScope : Option Principal → Text → Option Text → Type 0
InScope principal path none = Unit
InScope principal path (some pattern) =
    (path ≡ resolve_pattern principal pattern)
    ⊎ ((r : Text) × (path ≡ resolve_pattern principal pattern ++ (lit "/" ++ r)))

-- One of the grants is for a role that the caller holds, and covers the path.
pub record IsGranted (principal : Option Principal) (path : Text) (gs : List (Text × Option Text))
    : Type 0 where
  pub grant : Text × Option Text
  pub listed : In grant gs
  pub role : HoldsRole principal grant.0
  pub scope : InScope principal path grant.1

contains_iff : (xs : List Text) (t : Text) → (contains xs t ≡ true) ↔ In t xs
contains_iff xs t = (
  λ e.
      let (x, m, h) = any-eq-true (λ x. text_eq x t) xs e in
      subst (λ u. In u xs) ((text_eq_iff x t).0 h) m,
  λ m. any_of_In (λ x. text_eq x t) xs t m (text_eq_refl t),
)

role_ok_iff :
    (principal : Option Principal) (role : Text)
    → (role_ok principal role ≡ true) ↔ HoldsRole principal role
unfolding role_ok
role_ok_iff none role =
    ground (arith, text_eq_iff role (lit "all"), text_eq_iff role (lit "authenticated"))
role_ok_iff (some p) role = ground (
  arith,
  text_eq_iff role (lit "all"),
  text_eq_iff role (lit "authenticated"),
  contains_iff p.roles role,
)

covers_iff :
    (principal : Option Principal) (path pattern : Text)
    → (covers (resolve_pattern principal pattern) path ≡ true)
      ↔ InScope principal path (some pattern)
unfolding covers
covers_iff principal path pattern =
    let base = resolve_pattern principal pattern in
    (
      λ e. elim (or-cases (text_eq path base) (starts_with (base ++ lit "/") path) e) [
        | inl same ↦ inl ((text_eq_iff path base).0 same)
        | inr below ↦
            let (r, q) = starts_with-eq-true (base ++ lit "/") path below in
            inr (r, q ∙ append_assoc base (lit "/") r)
      ],
      elim [
        | inl same ↦ rw ((text_eq_iff path base).1 same) refl
        | inr (r, q) ↦
            or_right (text_eq path base) (
              rw (q ∙ sym (append_assoc base (lit "/") r)) (starts_with-append (base ++ lit "/") r))
      ],
    )

module _ (principal : Option Principal) (path : Text) where
  cons_iff :
      (b c : Bool) (g : Text × Option Text) (gs : List (Text × Option Text))
      → ((b ≡ true) ↔ (HoldsRole principal g.0 × InScope principal path g.1))
      → ((c ≡ true) ↔ IsGranted principal path gs)
      → ((b || c) ≡ true) ↔ IsGranted principal path (g ∷ gs)
  cons_iff b c g gs first rest = (
    λ e. elim (or-cases b c e) [
      | inl h ↦
          let (holds, covered) = first.0 h in
          record { grant = g; listed = inl refl; role = holds; scope = covered }
      | inr h ↦
          let k = rest.0 h in
          record { grant = k.grant; listed = inr k.listed; role = k.role; scope = k.scope }
    ],
    λ k. elim (k.listed) [
      | inl same ↦
          rw
            (first.1 (
              subst (λ (x : Text × Option Text). HoldsRole principal x.0) same k.role,
              subst (λ (x : Text × Option Text). InScope principal path x.1) same k.scope,
            ))
            refl
      | inr m ↦
          or_right b
            (rest.1 (record { grant = k.grant; listed = m; role = k.role; scope = k.scope }))
    ],
  )

  -- The loop over the tokens of a role spec grants the request exactly when the list of grants
  -- that the tokens spell has one for a role of the caller whose pattern, with the id and the
  -- claims put in, covers the path.
  pub satisfies_iff :
      (tokens : List Text)
      → (satisfies principal path tokens ≡ true) ↔ IsGranted principal path (grants tokens)
  unfolding satisfies
  satisfies_iff [] = (λ e. absurd (cc), λ k. absurd (k.listed))
  satisfies_iff (role ∷ []) = (
    λ e. record {
      grant = (role, none);
      listed = inl refl;
      role = (role_ok_iff principal role).0 e;
      scope = tt;
    },
    λ k. elim (k.listed) [
      | inl same ↦
          (role_ok_iff principal role).1
            (subst (λ (x : Text × Option Text). HoldsRole principal x.0) same k.role)
      | inr m ↦ elim m [ ]
    ],
  )
  satisfies_iff (role ∷ next ∷ tokens) = elim (Bool-cases (starts_with (lit "/") next)) [
    | inl pattern ↦ rw pattern (
        cons_iff (role_ok principal role && covers (resolve_pattern principal next) path)
          (satisfies principal path tokens) (role, some next) (grants tokens)
          (
            λ e.
                let (a, b) = (and-eq-true_iff _ _).0 e in
                ((role_ok_iff principal role).0 a, (covers_iff principal path next).0 b),
            λ (a, b).
                (and-eq-true_iff _ _).1
                  ((role_ok_iff principal role).1 a, (covers_iff principal path next).1 b),
          )
          (satisfies_iff tokens))
    | inr plain ↦ rw plain (
        cons_iff (role_ok principal role) (satisfies principal path (next ∷ tokens)) (role, none)
          (grants (next ∷ tokens))
          (λ e. ((role_ok_iff principal role).0 e, tt), λ (a, _). (role_ok_iff principal role).1 a)
          (satisfies_iff (next ∷ tokens)))
  ]
