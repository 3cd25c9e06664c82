-- ===== src/Wrapper/Cache/Shared.antt =====
-- What a shared cache may keep, and what the cache policy takes for openly readable.
use rs2_runtime.Common.{
  ◌≡◌, ◌≢◌, ◌⊎◌, refl, sym, ap, ◌∙◌, subst, inl, inr, Bool, true, false, none, some, [], is_some,
  arith, Bool-cases, Option-cases,
}
use mathlib.Core.Bool.{false≢true}
use rs2_runtime.Common.Text.{Text, lit, texts, text_ne, text_eq_iff, text_eq_refl, starts_with}
use rs2_runtime.Wrapper.Access.{
  satisfies_role_spec, satisfies, role_ok, resolve_role, is_system, check_value, check_role_spec,
  check_mount_access,
}
use rs2_runtime.Json.{
  Value, Fields, null, boolean, number, array, string, object, lookup, opt_str, unwrap_or,
}
use rs2_runtime.Json
use rs2_runtime.Error.{ok}
use rs2_runtime.Message.{Message, HeaderApi, header, set_header}
use rs2_runtime.Router.{Mount}
use rs2_runtime.Wrapper.Vary.{header-set_self, header-append_ne}
use rs2_runtime.Wrapper.Cache.{
  CacheMode, no_store, revalidate, cache, CachePolicy, open_access, mount_is_openly_readable,
  control, stores, vary, apply,
}

some-injective : {a b : Text} → some a ≡ some b → a ≡ b
some-injective e = ap (λ o. unwrap_or o []) e

private-not_public :
    (policy : CachePolicy) (mode : CacheMode)
    → starts_with (lit "public") (control policy mode (lit "private")) ≡ false
unfolding starts_with
private-not_public policy no_store = refl
private-not_public policy revalidate = refl
private-not_public policy cache = refl

module _ (api : HeaderApi) (policy : CachePolicy) (openly_readable : Bool) where
  header-vary :
      (by_caller : Bool) (resp : Message (api.Map))
      → header api (lit "cache-control") (vary api by_caller resp)
        ≡ header api (lit "cache-control") resp
  header-vary false resp = refl
  header-vary true resp =
      header-append_ne api (lit "cache-control") (lit "vary") (lit "authorization, cookie") resp
        (text_ne _ _ (unfold texts in refl))

  private_control :
      (by_caller : Bool) (resp : Message (api.Map)) (v : Text)
      → header api (lit "cache-control") resp ≡ none
      → header api (lit "cache-control") (
          vary api by_caller (
            set_header api (lit "cache-control") (control policy policy.mode (lit "private")) resp))
        ≡ some v
      → starts_with (lit "public") v ≡ false
  private_control by_caller resp v before after =
      let text = control policy policy.mode (lit "private") in
      let set = set_header api (lit "cache-control") text resp in
      let kept = sym (header-vary by_caller set) ∙ after in
      elim (Bool-cases (api.is_valid text)) [
        | inl valid ↦
            let same : text ≡ v =
              some-injective
                (sym (header-set_self api (lit "cache-control") text resp valid) ∙ kept) in
            subst (λ u. starts_with (lit "public") u ≡ false) same
              (private-not_public policy policy.mode)
        | inr other ↦ absurd (ground (arith, before, rw other at kept))
      ]

  -- A response with no `Cache-Control` of its own is made public only if the policy says so and
  -- the mount is openly readable.
  pub apply-IsShared :
      (resp : Message (api.Map)) (v : Text)
      → header api (lit "cache-control") resp ≡ none
      → header api (lit "cache-control") (apply api policy resp openly_readable) ≡ some v
      → starts_with (lit "public") v ≡ true
      → (policy.public ≡ true) × (openly_readable ≡ true)
  unfolding apply
  apply-IsShared resp v before after is_public =
      elim (Bool-cases (api.contains_key (lit "set-cookie") resp.headers)) [
        | inl cookie ↦ absurd (ground (arith, before, rw (before, cookie) at after))
        | inr plain ↦ elim (Bool-cases policy.public) [
          | inl shared ↦ elim (Bool-cases openly_readable) [
            | inl opened ↦ (shared, opened)
            | inr closed ↦ absurd (
                false≢true (
                  sym (
                    private_control (stores policy.mode) resp v before
                      (rw (before, plain, shared, closed) at after))
                  ∙ is_public))
          ]
          | inr closed ↦ absurd (
              false≢true (
                sym (
                  private_control (stores policy.mode) resp v before
                    (rw (before, plain, closed) at after))
                ∙ is_public))
        ]
      ]

module _ {H : Type 0} (msg : Message H) where
  all_roles : satisfies_role_spec (lit "all") msg ≡ true
  unfolding texts satisfies_role_spec satisfies role_ok
  all_roles = refl

  read-role :
      (spec : Fields)
      → unwrap_or (opt_str (lookup (lit "read") spec)) (lit "all") ≡ lit "all"
      → resolve_role spec (lit "read") ≡ lit "all"
  unfolding resolve_role
  read-role spec h = rw (text_eq_refl (lit "read")) h

  open_value :
      (o : Value) → open_access (some o) ≡ true → check_role_spec o (lit "read") msg ≡ ok tt
  unfolding check_role_spec
  open_value o h = elim (Bool-cases (is_system msg.source)) [
    | inl trusted ↦ rw trusted refl
    | inr caller ↦ rw caller (go o h)
  ]
    where
      go : (o : Value) → open_access (some o) ≡ true → check_value o (lit "read") msg ≡ ok tt
      go (string s) h = rw h refl
      go (object spec) h =
          let all : resolve_role spec (lit "read") ≡ lit "all" =
            read-role spec ((text_eq_iff _ (lit "all")).0 h) in
          rw (all, all_roles) refl
      go null h = absurd (ground arith)
      go (boolean b) h = absurd (ground arith)
      go (number n) h = absurd (ground arith)
      go (array xs) h = absurd (ground arith)

  -- A mount that the cache policy takes for openly readable lets every read through, or has no
  -- access config and lets none through.
  pub openly_readable-cases :
      (mount : Mount)
      → mount_is_openly_readable mount.config ≡ true
      → ((Json.get (lit "access") mount.config ≢ none)
          × (check_mount_access msg mount (lit "read") ≡ ok tt))
        ⊎ ((Json.get (lit "access") mount.config ≡ none)
            × (check_mount_access msg mount (lit "read") ≢ ok tt))
  unfolding mount_is_openly_readable check_mount_access
  openly_readable-cases mount h = elim (Option-cases (Json.get (lit "access") mount.config)) [
    | inl absent ↦ inr (
      absent,
      λ e. elim (Bool-cases (is_some msg.principal)) [
        | inl known ↦ absurd (ground (arith, rw (absent, known) at e))
        | inr unknown ↦ absurd (ground (arith, rw (absent, unknown) at e))
      ],
    )
    | inr (access, present) ↦
        inl (
          λ e. absurd (ground (arith, e, present)),
          rw present (open_value access (rw present at h)),
        )
  ]
