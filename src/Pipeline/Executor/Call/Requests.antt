-- ===== src/Pipeline/Executor/Call/Requests.antt =====
-- The requests that a call makes.
use rs2_runtime.Common.{
  ◌%◌, ◌^◌, ℕ, zero, suc, ◌+◌, ◌≡◌, refl, sym, ap, ◌∙◌, Bool, true, false, Option, none, some, All,
  inl, inr, subst, Option-cases, if◌then◌else◌,
}
use rs2_runtime.Common.Text.{Text}
use rs2_runtime.Crypto.{Outcome, panic, returned}
use rs2_runtime.Error.{Result, ok, err}
use rs2_runtime.Error.Bind.{ok-injective}
use rs2_runtime.Json.{Value, Fields}
use rs2_runtime.Message.{Principal, internal}
use rs2_runtime.Message.Url.{parse}
use rs2_runtime.Outbound.{ExternalDispatch, is_external_url, authorize}
use rs2_runtime.Pipeline.Spec.{CallSpec}
use rs2_runtime.Pipeline.Executor.Base.{World, Executor, Place, Sent, Msg}
use rs2_runtime.Pipeline.Executor.Log.{All-bind, All-lift}
use rs2_runtime.Pipeline.Executor.Target.{
  CallTarget, inside, outside, as_outside, elevated, target_of, is_inside,
}
use rs2_runtime.Pipeline.Executor.Request.{value_of, Prepared, request_for, prepare, with_headers}
use rs2_runtime.Pipeline.Executor.Call.{
  Step, sent_from, grant_of, retried, perform, captured, settled, named, dispatched, run_call,
}
use rs2_runtime.Pipeline.Executor.Call.Elevation.{IsElevated, elevated-IsElevated}
use rs2_runtime.Pipeline.Executor.Call.Preparation.{
  request_for-Alike, Fits, prepare-Fits, with_headers-Fits,
}

-- The principal that a request carries: the caller's, as the step elevates it, and none where the
-- request leaves the node.
abbrev pub Carries : Bool → Option Text → Option Principal → Option ℕ → Option Principal → Type 0
Carries elevate role before none after = IsElevated elevate role before after
Carries elevate role before (some g) after = after ≡ none

abbrev caller_of : Option ℕ → Option Principal → Option Principal
caller_of none principal = principal
caller_of (some g) principal = none

caller_of-Carries :
    (elevate : Bool) (role : Option Text) (before : Option Principal) (grant : Option ℕ)
    (after : Option Principal)
    → after ≡ caller_of grant (elevated elevate role before)
    → Carries elevate role before grant after
caller_of-Carries elevate role before (some g) after h = h
caller_of-Carries elevate role before none after h =
    subst (IsElevated elevate role before) (sym h) (elevated-IsElevated elevate role before)

-- Where a URL leads: inside, or out of the node by a grant that allows it.
abbrev pub Leads : Option ExternalDispatch → Option ℕ → Text → Type 0
Leads external none url = is_external_url url ≡ returned false
Leads external (some g) url =
    (is_external_url url ≡ returned true)
    × ((ext : ExternalDispatch) × (external ≡ some ext) × (authorize ext url ≡ ok g))

module _ (w : World) (x : Executor (w.floats.F)) where
  -- What every request of a call has.
  pub record IsContained (step : Step w x) (msg : Msg w) (s : Sent (Msg w)) : Type 0 where
    pub of_tenant : s.request.tenant ≡ msg.tenant
    pub from_inside : s.request.source ≡ internal
    pub one_deeper : s.request.depth ≡ (msg.depth + 1) % 2 ^ 16
    pub of_caller : Carries step.elevate x.elevate_role msg.principal s.grant s.request.principal
    pub leads : (url : Text) × (s.request.url ≡ parse url) × Leads x.external s.grant url

  caller_of-inside :
      (target : CallTarget) (p : Option Principal)
      → (if is_inside target then p else none) ≡ caller_of (grant_of w x target) p
  caller_of-inside inside p = refl
  caller_of-inside (outside g) p = refl

  sent-IsContained :
      (step : Step w x) (before msg : Msg w) (c : Prepared w x) (place : Place)
      (target : CallTarget) (n : ℕ)
      → Fits w x step before msg c
      → Leads x.external (grant_of w x target) c.url
      → IsContained step before (record {
        place = place;
        grant = grant_of w x target;
        attempt_number = n;
        request = request_for w x c msg target n;
      })
  sent-IsContained step before msg c place target n fits leads =
      let (tenant, source, depth, principal, url) = request_for-Alike w x c msg target n in
      record {
        of_tenant = tenant ∙ fits.same_tenant;
        from_inside = source;
        one_deeper = depth ∙ ap (λ d. (d + 1) % 2 ^ 16) fits.same_depth;
        of_caller =
            caller_of-Carries step.elevate x.elevate_role before.principal (grant_of w x target) _ (
              principal
              ∙ (caller_of-inside target c.principal
                  ∙ ap (caller_of (grant_of w x target)) fits.principal));
        leads = (c.url, url, leads);
      }

  sent_from-IsContained :
      (step : Step w x) (before msg : Msg w) (c : Prepared w x) (place : Place)
      (target : CallTarget) (n k : ℕ)
      → Fits w x step before msg c
      → Leads x.external (grant_of w x target) c.url
      → All (IsContained step before) (sent_from w x place c msg target n k)
  unfolding sent_from
  sent_from-IsContained step before msg c place target n zero fits leads = tt
  sent_from-IsContained step before msg c place target n (suc k) fits leads = (
    sent-IsContained step before msg c place target n fits leads,
    sent_from-IsContained step before msg c place target (suc n) k fits leads,
  )

  outside-Leads :
      (ext : ExternalDispatch) (url : Text) (target : CallTarget) (r : Result ℕ)
      → x.external ≡ some ext
      → is_external_url url ≡ returned true
      → authorize ext url ≡ r
      → as_outside r ≡ ok target
      → Leads x.external (grant_of w x target) url
  outside-Leads ext url target (err e) has out a h = absurd (cc)
  outside-Leads ext url target (ok g) has out a h =
      subst (λ t. Leads x.external (grant_of w x t) url) (ok-injective (outside g) target h)
        (out, (ext, has, a))

  target-Leads :
      (external : Bool) (ext : Option ExternalDispatch) (url : Text) (target : CallTarget)
      → x.external ≡ ext
      → is_external_url url ≡ returned external
      → target_of ext url external ≡ ok target
      → Leads x.external (grant_of w x target) url
  target-Leads false ext url target has out h =
      subst (λ t. Leads x.external (grant_of w x t) url) (ok-injective inside target h) out
  target-Leads true none url target has out h = absurd (cc)
  target-Leads true (some ext) url target has out h = outside-Leads ext url target _ has out refl h

  perform-IsContained :
      (step : Step w x) (before msg : Msg w) (c : Prepared w x) (place : Place) (external : Bool)
      (r : Result CallTarget)
      → Fits w x step before msg c
      → is_external_url c.url ≡ returned external
      → target_of x.external c.url external ≡ r
      → All (IsContained step before) ((perform w x place step c msg external r).0)
  perform-IsContained step before msg c place external (err e) fits url leads = tt
  perform-IsContained step before msg c place external (ok target) fits url leads =
      sent_from-IsContained step before msg c place target 1
        ((retried w x place step c msg target).attempts) fits
        (target-Leads external x.external c.url target refl url leads)

  captured-silent :
      (P : Sent (Msg w) → Type 0) (capture : Text) (vars : Fields) (msg : Msg w) (r : Result Value)
      → All P ((captured w x capture vars msg r).0)
  captured-silent P capture vars msg (err e) = tt
  captured-silent P capture vars msg (ok v) = tt

  -- Nothing is sent once the response is there.
  pub settled-silent :
      (P : Sent (Msg w) → Type 0) (step : Step w x) (vars : Fields) (msg out : Msg w)
      → All P ((settled w x step vars msg out).0)
  settled-silent P step vars msg out = elim (Option-cases step.capture) [
    | inl none_ ↦ rw none_ tt
    | inr (capture, e) ↦ rw e (captured-silent P capture vars msg (value_of w x out))
  ]

  dispatched-IsContained :
      (place : Place) (step : Step w x) (call : CallSpec) (vars : Fields) (before msg : Msg w)
      (c : Prepared w x) (ctx : Fields) (u : Outcome Bool)
      → Fits w x step before msg c
      → is_external_url c.url ≡ u
      → All (IsContained step before) ((dispatched w x place step call vars c ctx msg u).0)
  dispatched-IsContained place step call vars before msg c ctx panic fits url = tt
  dispatched-IsContained place step call vars before msg c ctx (returned external) fits url =
      let P = IsContained step before in
      All-lift P (with_headers w x call ctx c) _ λ ready e.
        let (kept, same) = with_headers-Fits w x step before msg call ctx c ready fits e in
        All-bind P
          (perform w x place step ready msg external (target_of x.external ready.url external)) _
          (perform-IsContained step before msg ready place external _ kept
            (ap is_external_url same ∙ url) refl)
          λ out k. settled-silent P step vars msg (named w x step.name msg.name out)

-- Every request of a call has the tenant of the message, is internal, and has a depth greater by
-- one, modulo 2^16, and its URL leads inside, or leaves by a grant. One that leaves carries no
-- principal. One that stays inside carries that of the caller, if the step is not elevated or the
-- mount has no role, and else a principal of the same id, or of an empty one for an anonymous
-- caller, that has the role of the mount and all the roles of the caller, and no other.
pub run_call-IsContained :
    (w : World) (x : Executor (w.floats.F)) (place : Place) (step : Step w x) (call : CallSpec)
    (msg : Msg w) (vars : Fields)
    → All (IsContained w x step msg) ((run_call w x place step call msg vars).0)
unfolding run_call
run_call-IsContained w x place step call msg vars =
    All-lift (IsContained w x step msg) (prepare w x place step call msg vars) _ λ p e.
      dispatched-IsContained w x place step call vars msg p.1.1 p.0 p.1.0 (is_external_url p.0.url)
        (prepare-Fits w x place step call msg vars p e) refl
