-- ===== src/Pipeline/Executor/Call/Preparation.antt =====
-- What a call that is prepared has of its message, and its requests of the call.
use rs2_runtime.Common.{
  ℕ, ◌≡◌, refl, sym, ap, ◌∙◌, Bool, true, false, Option, none, some, List, [], ◌∷◌, is_some, inl,
  inr, Bool-cases, ◌&&◌, not, if◌then◌else◌,
}
use rs2_runtime.Common.Text.{Text, lit}
use rs2_runtime.Error.{Result, ok, err}
use rs2_runtime.Error.Bind.{bind-ok, ok-injective}
use rs2_runtime.Json.{Fields}
use rs2_runtime.Message.{Method, Body, Bytes, header}
use rs2_runtime.Message.Materialize.{materialize}
use rs2_runtime.Message.Content.{is_stream}
use rs2_runtime.Pipeline.Spec.{CallSpec}
use rs2_runtime.Pipeline.Executor.Base.{
  and_then_body, resolve_text, World, Executor, Place, Msg, put_body, materialize_body,
  materialize_if_needed,
}
use rs2_runtime.Pipeline.Executor.Target.{
  CallTarget, elevated, Bodies, taken, has_no_body, body_for, needs_key,
}
use rs2_runtime.Pipeline.Executor.Request.{
  bodies_of, Prepared, put_headers, bare_request, keyed_request, request_for, prepare,
  method_result, prepared, headers_of, preserved, interpolation_context, with_headers,
}
use rs2_runtime.Pipeline.Executor.Call.{Step}

module _ (w : World) (x : Executor (w.floats.F)) where
  -- Two requests that differ at most in their headers.
  abbrev pub Alike : Msg w → Msg w → Type 0
  Alike a b =
      (a.tenant ≡ b.tenant)
      × (a.source ≡ b.source)
      × (a.depth ≡ b.depth)
      × (a.principal ≡ b.principal)
      × (a.url ≡ b.url)

  put_headers-Alike : (hs : List (Text × Text)) (req : Msg w) → Alike (put_headers w x hs req) req
  put_headers-Alike [] req = (refl, refl, refl, refl, refl)
  put_headers-Alike ((k, v) ∷ hs) req =
      put_headers-Alike hs (record req { headers = w.api.insert k v req.headers })

  set_header-Alike :
      (valid : Bool) (b : Bool) (k v : Text) (req : Msg w)
      → Alike
          (if b
            then (if valid then record req { headers = w.api.insert k v req.headers } else req)
            else req)
          req
  set_header-Alike true true k v req = (refl, refl, refl, refl, refl)
  set_header-Alike false true k v req = (refl, refl, refl, refl, refl)
  set_header-Alike true false k v req = (refl, refl, refl, refl, refl)
  set_header-Alike false false k v req = (refl, refl, refl, refl, refl)

  keyed_request-Alike :
      (needs : Bool) (key : Text) (req : Msg w) → Alike (keyed_request w x needs key req) req
  keyed_request-Alike needs key req =
      set_header-Alike (w.api.is_valid key)
        (needs && not (is_some (header w.api (lit "idempotency-key") req))) (lit "idempotency-key")
        key req

  Alike-trans : (a b c : Msg w) → Alike a b → Alike b c → Alike a c
  Alike-trans a b c (h1, h2, h3, h4, h5) (k1, k2, k3, k4, k5) =
      (h1 ∙ k1, h2 ∙ k2, h3 ∙ k3, h4 ∙ k4, h5 ∙ k5)

  pub request_for-Alike :
      (c : Prepared w x) (msg : Msg w) (target : CallTarget) (n : ℕ)
      → Alike
          (request_for w x c msg target n)
          (bare_request w x c.method c.url msg target c.principal (body_for c.bodies n))
  unfolding request_for
  request_for-Alike c msg target n =
      let bare = bare_request w x c.method c.url msg target c.principal (body_for c.bodies n) in
      Alike-trans (request_for w x c msg target n) (put_headers w x c.headers bare) bare
        (keyed_request-Alike (needs_key c.effect) c.key (put_headers w x c.headers bare))
        (put_headers-Alike c.headers bare)

  -- What is known of a call that is prepared.
  pub record Fits (step : Step w x) (before msg : Msg w) (c : Prepared w x) : Type 0 where
    pub same_tenant : msg.tenant ≡ before.tenant
    pub same_depth : msg.depth ≡ before.depth
    pub principal : c.principal ≡ elevated step.elevate x.elevate_role before.principal

  abbrev Keeps : Msg w → Msg w → Type 0
  Keeps m before =
      (m.tenant ≡ before.tenant) × (m.depth ≡ before.depth) × (m.principal ≡ before.principal)

  ok-Keeps : (before m : Msg w) → ok before ≡ ok m → Keeps m before
  ok-Keeps before m h =
      let e = ok-injective before m h in
      (sym (ap (λ a. a.tenant) e), sym (ap (λ a. a.depth) e), sym (ap (λ a. a.principal) e))

  put_body-Keeps :
      (before m : Msg w) (r : Body × Result Bytes) → put_body before r ≡ ok m → Keeps m before
  put_body-Keeps before m (body, err e) h = absurd (cc)
  put_body-Keeps before m (body, ok raw) h = ok-Keeps (record before { body = some body }) m h

  materialize_body-Keeps :
      (most : ℕ) (before m : Msg w) (b : Option Body)
      → materialize_body most before b ≡ ok m
      → Keeps m before
  materialize_body-Keeps most before m none h = ok-Keeps before m h
  materialize_body-Keeps most before m (some body) h = elim (Bool-cases (is_stream body)) [
    | inl streams ↦ put_body-Keeps before m (materialize most body) (rw streams at h)
    | inr held ↦ ok-Keeps before m (rw held at h)
  ]

  given-Keeps :
      (before : Msg w) (r b : Bodies × Msg w) → Keeps r.1 before → ok r ≡ ok b → Keeps b.1 before
  given-Keeps before r b (tenant, depth, principal) h =
      let e = ok-injective r b h in
      (
        sym (ap (λ a. a.1.tenant) e) ∙ tenant,
        sym (ap (λ a. a.1.depth) e) ∙ depth,
        sym (ap (λ a. a.1.principal) e) ∙ principal,
      )

  preserved-Keeps :
      (before : Msg w) (b : Bodies × Msg w) (r : Result (Msg w))
      → materialize_body x.limits.materialize_cap before before.body ≡ r
      → preserved w x r ≡ ok b
      → Keeps b.1 before
  preserved-Keeps before b (err e) same k = absurd (cc)
  preserved-Keeps before b (ok m) same k =
      given-Keeps before ((and_then_body m.body, none), m) b
        (materialize_body-Keeps x.limits.materialize_cap before m before.body same) k

  bodies_of-Keeps :
      (method : Method) (preserve : Bool) (before : Msg w) (b : Bodies × Msg w)
      → bodies_of w x method preserve before ≡ ok b
      → Keeps b.1 before
  unfolding materialize_if_needed
  bodies_of-Keeps method preserve before b h = elim (Bool-cases (has_no_body method)) [
    | inl plain ↦ given-Keeps before ((none, none), before) b (refl, refl, refl) (rw plain at h)
    | inr sends ↦ elim (Bool-cases preserve) [
      | inl keeps ↦ preserved-Keeps before b _ refl (rw (sends, keeps) at h)
      | inr takes ↦
          given-Keeps before (taken before.body, record before { body = none }) b (refl, refl, refl)
            (rw (sends, takes) at h)
    ]
  ]

  pub prepare-Fits :
      (place : Place) (step : Step w x) (call : CallSpec) (msg : Msg w) (vars : Fields)
      (p : Prepared w x × (Fields × Msg w))
      → prepare w x place step call msg vars ≡ ok p
      → Fits step msg p.1.1 p.0
  unfolding prepare
  prepare-Fits place step call msg vars p h =
      let ctx = interpolation_context w x msg vars in
      let (method, m, h1) =
        bind-ok (method_result w x call.method (w.method_of call.method)) _ p h in
      let (url, u, h2) = bind-ok (resolve_text w x.url ctx call.url) _ p h1 in
      let (b, kept, h3) = bind-ok (bodies_of w x method (is_some step.capture) msg) _ p h2 in
      let (tenant, depth, principal) = bodies_of-Keeps method (is_some step.capture) msg b kept in
      let e = ok-injective (prepared w x place step call ctx method url b) p h3 in
      record {
        same_tenant = sym (ap (λ a. a.1.1.tenant) e) ∙ tenant;
        same_depth = sym (ap (λ a. a.1.1.depth) e) ∙ depth;
        principal =
            sym (ap (λ a. a.0.principal) e) ∙ ap (elevated step.elevate x.elevate_role) principal;
      }

  pub with_headers-Fits :
      (step : Step w x) (before msg : Msg w) (call : CallSpec) (ctx : Fields)
      (c ready : Prepared w x)
      → Fits step before msg c
      → with_headers w x call ctx c ≡ ok ready
      → Fits step before msg ready × (ready.url ≡ c.url)
  unfolding with_headers
  with_headers-Fits step before msg call ctx c ready fits h =
      let (hs, r, h1) = bind-ok (headers_of w x call.headers ctx) _ ready h in
      let e = ok-injective (record c { headers = hs }) ready h1 in
      (
        record {
          same_tenant = fits.same_tenant;
          same_depth = fits.same_depth;
          principal = sym (ap (λ a. a.principal) e) ∙ fits.principal;
        },
        sym (ap (λ a. a.url) e),
      )
