-- ===== src/Wrapper/Access/Laws.antt =====
-- Which requests a mount lets through, and how it refuses the others.
use rs2_runtime.Common.{
  ◌≡◌, ◌≢◌, ◌↔◌, refl, sym, ◌∙◌, ◌⊎◌, inl, inr, Bool, true, false, Option, none, some,
  if◌then◌else◌, arith, Bool-cases, ◌&&◌, is_some, not,
}
use mathlib.Core.Bool.{false≢true}
use rs2_runtime.Common.Text.{Text, lit, text_eq, text_eq_iff, split_whitespace}
use rs2_runtime.Json
use rs2_runtime.Json.{Value, null, boolean, number, string, array, object, Fields}
use rs2_runtime.Error.{Result, ok, err, RsError, unauthorized, forbidden, internal}
use rs2_runtime.Message.{Message, Principal, Source, system}
use rs2_runtime.Message.Url.{service_segments}
use rs2_runtime.Router.{Mount}
use rs2_runtime.Wrapper.Access.{
  action_for, resolve_role, satisfies_role_spec, is_system, check_policy, check_roles, check_value,
  check_role_spec, check_config, check_mount_access, begins_with_dot, check_access,
}
use rs2_runtime.Wrapper.Access.Grants.{grants, IsGranted, satisfies_iff}

-- A test that exempts from a check.
exempt_iff :
    {P Q : Type 0} (p d : Bool) (r : Result (Unit {0}))
    → (p ≡ true) ↔ P
    → (r ≡ ok tt) ↔ Q
    → ((if p && not d then ok tt else r) ≡ ok tt) ↔ ((P × (d ≡ false)) ⊎ Q)
exempt_iff true false r (see, unsee) (to, from) = (λ e. inl (see refl, refl), λ h. refl)
exempt_iff true true r (see, unsee) (to, from) =
    (λ e. inr (to e), elim [ inl h ↦ absurd (cc (h.1)) | inr h ↦ from h ])
exempt_iff false d r (see, unsee) (to, from) =
    (λ e. inr (to e), elim [ inl h ↦ absurd (cc (unsee h.0)) | inr h ↦ from h ])

module _ {H : Type 0} (msg : Message H) where
  -- An access value lets the message through for an action: the message is the system's own, the
  -- mount is open, the caller is logged in where that is enough, or a grant of the role spec of the
  -- action is for it.
  abbrev pub Admits : Value → Text → Type 0
  Admits (string s) action =
      (s ≡ lit "open") ⊎ ((s ≡ lit "authenticated") × (is_some msg.principal ≡ true))
  Admits (object spec) action =
      IsGranted msg.principal msg.url.service_path
        (grants (split_whitespace (resolve_role spec action)))
  Admits _ action = ⊥

  check_roles_iff :
      (role_spec : Text)
      → (check_roles role_spec msg ≡ ok tt)
        ↔ IsGranted msg.principal msg.url.service_path (grants (split_whitespace role_spec))
  unfolding satisfies_role_spec
  check_roles_iff role_spec =
      let (to, from) =
        satisfies_iff msg.principal msg.url.service_path (split_whitespace role_spec) in
      (λ e. to (ground arith), λ k. rw (from k) refl)

  check_value_iff :
      (access : Value) (action : Text)
      → (check_value access action msg ≡ ok tt) ↔ Admits access action
  check_value_iff null action = (λ e. absurd (cc), λ h. absurd h)
  check_value_iff (boolean b) action = (λ e. absurd (cc), λ h. absurd h)
  check_value_iff (number n) action = (λ e. absurd (cc), λ h. absurd h)
  check_value_iff (array xs) action = (λ e. absurd (cc), λ h. absurd h)
  check_value_iff (string s) action =
      ground (arith, text_eq_iff s (lit "open"), text_eq_iff s (lit "authenticated"))
  check_value_iff (object spec) action = check_roles_iff (resolve_role spec action)

  -- An access config lets the message through; where there is none, nothing does.
  abbrev pub AdmitsConfig : Option Value → Text → Type 0
  AdmitsConfig none action = ⊥
  AdmitsConfig (some access) action = (msg.source ≡ system) ⊎ Admits access action

  is_system_iff : (s : Source) → (is_system s ≡ true) ↔ (s ≡ system)
  is_system_iff Source.external = ground arith
  is_system_iff Source.internal = ground arith
  is_system_iff Source.system = ground arith

  check_config_iff :
      (access : Option Value) (action : Text)
      → (check_config access action msg ≡ ok tt) ↔ AdmitsConfig access action
  unfolding check_role_spec
  check_config_iff none action = (λ e. absurd (ground arith), λ h. absurd h)
  check_config_iff (some access) action =
      let (to, from) = check_value_iff access action in
      let (see, unsee) = is_system_iff msg.source in
      elim (Bool-cases (is_system msg.source)) [
        | inl trusted ↦ rw trusted (λ e. inl (see trusted), λ h. refl)
        | inr plain ↦ rw plain (
          λ e. inr (to e),
          elim [ inl same ↦ absurd (false≢true (sym plain ∙ unsee same)) | inr h ↦ from h ],
        )
      ]

  -- The execution paths of a pipeline mount, which the pipeline service guards itself.
  abbrev pub IsExecution : Mount → Type 0
  IsExecution mount =
      (mount.service ≡ lit "pipeline") × (begins_with_dot (service_segments msg.url) ≡ false)

  -- The host lets a request through to a mount exactly when it is for an execution path of a
  -- pipeline, or the mount has an access config which lets the action of the method through: for
  -- the system's own messages, for everyone where it is open, for any principal where it asks for
  -- one, or by a grant of the role spec.
  pub check_access_iff :
      (mount : Mount)
      → (check_access msg mount ≡ ok tt) ↔ (
          IsExecution mount
          ⊎ AdmitsConfig (Json.get (lit "access") mount.config) (action_for msg.method))
  unfolding check_access check_mount_access
  check_access_iff mount =
      let (to, from) =
        check_config_iff (Json.get (lit "access") mount.config) (action_for msg.method) in
      let (pipe, unpipe) = text_eq_iff mount.service (lit "pipeline") in
      exempt_iff (text_eq mount.service (lit "pipeline"))
        (begins_with_dot (service_segments msg.url)) _ (pipe, unpipe) (to, from)

-- An access config that is neither a known policy nor a role spec.
abbrev pub IsBroken : Option Value → Type 0
IsBroken none = ⊥
IsBroken (some (string s)) = (s ≢ lit "open") × (s ≢ lit "authenticated")
IsBroken (some (object spec)) = ⊥
IsBroken (some _) = Unit

-- The status for a caller with no principal and for one with a principal.
abbrev pub IsDenial : Option Principal → RsError → Type 0
IsDenial none e = e.status ≡ 401
IsDenial (some p) e = e.status ≡ 403

abbrev pub IsRefusal : Type 0 → Option Principal → RsError → Type 0
IsRefusal Broken p e = (Broken × (e.status ≡ 500)) ⊎ ((Broken → ⊥) × IsDenial p e)

-- Every error of a result is such a refusal.
record Refused (Broken : Type 0) (p : Option Principal) (r : Result (Unit {0})) : Type 0 where
  refusal : (e : RsError) → r ≡ err e → IsRefusal Broken p e

module _ {Broken : Type 0} where
  accepted : (p : Option Principal) → Refused Broken p (ok tt)
  accepted p = record { refusal = λ e h. absurd (ground arith) }

  denied :
      (p : Option Principal) (t u : Text)
      → (Broken → ⊥)
      → Refused Broken p (if is_some p then err (forbidden t) else err (unauthorized u))
  denied none t u sound = record { refusal = λ e h. inr (sound, ground arith) }
  denied (some p) t u sound = record { refusal = λ e h. inr (sound, ground arith) }

  anonymous :
      (p : Option Principal) (u : Text)
      → (Broken → ⊥)
      → Refused Broken p (if is_some p then ok tt else err (unauthorized u))
  anonymous none u sound = record { refusal = λ e h. inr (sound, ground arith) }
  anonymous (some p) u sound = accepted (some p)

  broken : (p : Option Principal) (t : Text) → Broken → Refused Broken p (err (internal t))
  broken p t b = record { refusal = λ e h. inl (b, ground arith) }

  Refused-if :
      (p : Option Principal) (b : Bool) (x y : Result (Unit {0}))
      → Refused Broken p x
      → Refused Broken p y
      → Refused Broken p (if b then x else y)
  Refused-if p true x y h k = h
  Refused-if p false x y h k = k

module _ {H : Type 0} (msg : Message H) where
  Refused-policy :
      (s : Text) → Refused (IsBroken (some (string s))) msg.principal (check_policy s msg)
  Refused-policy s = elim (Bool-cases (text_eq s (lit "open"))) [
    | inl opened ↦ rw opened (accepted msg.principal)
    | inr closed ↦ elim (Bool-cases (text_eq s (lit "authenticated"))) [
      | inl asks ↦
          rw (closed, asks)
            (anonymous msg.principal _ (λ (a, b). b ((text_eq_iff s (lit "authenticated")).0 asks)))
      | inr other ↦
          rw (closed, other)
            (broken msg.principal _ (
              λ e. false≢true (sym closed ∙ (text_eq_iff s (lit "open")).1 e),
              λ e. false≢true (sym other ∙ (text_eq_iff s (lit "authenticated")).1 e),
            ))
    ]
  ]

  Refused-value :
      (access : Value) (action : Text)
      → Refused (IsBroken (some access)) msg.principal (check_value access action msg)
  Refused-value null action = broken msg.principal _ tt
  Refused-value (boolean b) action = broken msg.principal _ tt
  Refused-value (number n) action = broken msg.principal _ tt
  Refused-value (array xs) action = broken msg.principal _ tt
  Refused-value (string s) action = Refused-policy s
  Refused-value (object spec) action =
      Refused-if msg.principal _ _ _ (accepted msg.principal) (denied msg.principal _ _ (λ b. b))

  Refused-config :
      (access : Option Value) (action : Text)
      → Refused (IsBroken access) msg.principal (check_config access action msg)
  unfolding check_role_spec
  Refused-config none action = denied msg.principal _ _ (λ b. b)
  Refused-config (some access) action =
      Refused-if msg.principal _ _ _ (accepted msg.principal) (Refused-value access action)

  Refused-access :
      (mount : Mount)
      → Refused
          (IsBroken (Json.get (lit "access") mount.config))
          msg.principal
          (check_access msg mount)
  unfolding check_access check_mount_access
  Refused-access mount =
      Refused-if msg.principal _ _ _ (accepted msg.principal)
        (Refused-config (Json.get (lit "access") mount.config) (action_for msg.method))

  -- A request that a mount refuses is answered 500 if the access config of the mount is neither a
  -- known policy nor a role spec, and else, also where there is no config, 401 if it has no
  -- principal and 403 if it has one.
  pub check_access-IsRefusal :
      (mount : Mount) (e : RsError)
      → check_access msg mount ≡ err e
      → IsRefusal (IsBroken (Json.get (lit "access") mount.config)) msg.principal e
  check_access-IsRefusal mount e h = (Refused-access mount).refusal e h
