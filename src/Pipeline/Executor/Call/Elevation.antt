-- ===== src/Pipeline/Executor/Call/Elevation.antt =====
-- The principal that a call carries, where its step is elevated and the mount has a role.
use rs2_runtime.Common.{
  ◌≡◌, refl, ◌⊎◌, inl, inr, subst, Bool, true, false, Bool-cases, Option, none, some, List, [], ◌∷◌,
  ◌++◌, All, In, any, any-eq-true, All-In, All-append,
}
use rs2_runtime.Common.Text.{Text, text_eq, text_eq_iff}
use rs2_runtime.Json.{unwrap_or}
use rs2_runtime.Message.{Principal}
use rs2_runtime.Pipeline.Executor.Target.{elevated, with_role, no_one}

abbrev pub id_of : Option Principal → Text
id_of none = []
id_of (some p) = p.id

abbrev pub roles_of : Option Principal → List Text
roles_of none = []
roles_of (some p) = p.roles

-- The same caller, with all of its roles and with that role, and with no other.
pub record HasGained (role : Text) (before : Option Principal) (p : Principal) : Type 0 where
  pub same_id : p.id ≡ id_of before
  pub gained : In role p.roles
  pub keeps : All (λ r. In r p.roles) (roles_of before)
  pub no_other : All (λ r. (r ≡ role) ⊎ In r (roles_of before)) p.roles

-- What an elevated step does to the caller, and one that is not, or whose mount has no role.
abbrev pub IsElevated : Bool → Option Text → Option Principal → Option Principal → Type 0
IsElevated false role before after = after ≡ before
IsElevated true none before after = after ≡ before
IsElevated true (some role) before after =
    (p : Principal) × (after ≡ some p) × HasGained role before p

In-append_left : (a : Text) (rs more : List Text) → In a rs → In a (rs ++ more)
In-append_left a [] more m = elim m [ ]
In-append_left a (r ∷ rs) more (inl e) = inl e
In-append_left a (r ∷ rs) more (inr m) = inr (In-append_left a rs more m)

In-append_right : (a : Text) (rs more : List Text) → In a more → In a (rs ++ more)
In-append_right a [] more m = m
In-append_right a (r ∷ rs) more m = inr (In-append_right a rs more m)

with_role-gained : (role : Text) (p : Principal) → HasGained role (some p) (with_role role p)
with_role-gained role p = elim (Bool-cases (any (λ r. text_eq r role) p.roles)) [
  | inl has ↦ rw has (
      let (r, m, e) = any-eq-true (λ r. text_eq r role) p.roles has in
      record {
        same_id = refl;
        gained = subst (λ t. In t p.roles) ((text_eq_iff r role).0 e) m;
        keeps = All-In _ p.roles (λ a k. k);
        no_other = All-In _ p.roles (λ a k. inr k);
      })
  | inr lacks ↦ rw lacks (record {
    same_id = refl;
    gained = In-append_right role p.roles (role ∷ []) (inl refl);
    keeps = All-In _ p.roles (λ a k. In-append_left a p.roles (role ∷ []) k);
    no_other = All-append _ p.roles (role ∷ []) (All-In _ p.roles (λ a k. inr k)) (inl refl, tt);
  })
]

with_role-HasGained :
    (role : Text) (before : Option Principal)
    → HasGained role before (with_role role (unwrap_or before no_one))
with_role-HasGained role (some p) = with_role-gained role p
with_role-HasGained role none =
    let h = with_role-gained role no_one in
    record { same_id = h.same_id; gained = h.gained; keeps = h.keeps; no_other = h.no_other }

pub elevated-IsElevated :
    (elevate : Bool) (role : Option Text) (before : Option Principal)
    → IsElevated elevate role before (elevated elevate role before)
elevated-IsElevated false role before = refl
elevated-IsElevated true none before = refl
elevated-IsElevated true (some role) before = (_, refl, with_role-HasGained role before)
