-- ===== src/Pipeline/Executor/Call/Keys.antt =====
-- The idempotency key of the requests of a call.
use rs2_runtime.Common.{
  ℕ, zero, suc, ◌≡◌, refl, sym, ap, ◌∙◌, Bool, true, Option, none, some, Option-cases, List, [],
  ◌∷◌, All, inl, inr, is_some,
}
use rs2_runtime.Common.Text.{Text, lit}
use rs2_runtime.Crypto.{Outcome, panic, returned}
use rs2_runtime.Error.{Result, ok, err}
use rs2_runtime.Error.Bind.{bind-ok, ok-injective}
use rs2_runtime.Json.{Fields}
use rs2_runtime.Message.{header}
use rs2_runtime.Outbound.{is_external_url}
use rs2_runtime.Pipeline.Spec.{CallSpec, call_effect}
use rs2_runtime.Pipeline.Executor.Base.{
  World, Executor, Place, Sent, Msg, Exec, lift, ◌>>=◌, key_path, resolve_text,
}
use rs2_runtime.Pipeline.Executor.Log.{All-bind}
use rs2_runtime.Pipeline.Executor.Target.{CallTarget, needs_key, derive_key, body_for, target_of}
use rs2_runtime.Pipeline.Executor.Request.{
  Prepared, put_headers, bare_request, keyed_request, request_for, prepare, method_result, prepared,
  headers_of, bodies_of, interpolation_context, with_headers,
}
use rs2_runtime.Pipeline.Executor.Call.{
  Step, sent_from, retried, perform, named, dispatched, run_call,
}
use rs2_runtime.Pipeline.Executor.Call.Requests.{settled-silent}

-- The header that has the key.
abbrev pub key_header : Text
key_header = lit "idempotency-key"

-- Where a call has no headers of its own, its key is the derived one.
abbrev pub IsDerived : Option (List (Text × Text)) → Text → Text → Type 0
IsDerived none derived key = key ≡ derived
IsDerived (some spec_headers) derived key = Unit

module _ (w : World) (x : Executor (w.floats.F)) where
  put_headers-same :
      (hs : List (Text × Text)) (a b : Msg w)
      → a.headers ≡ b.headers
      → (put_headers w x hs a).headers ≡ (put_headers w x hs b).headers
  put_headers-same [] a b e = e
  put_headers-same ((k, v) ∷ hs) a b e = put_headers-same hs _ _ (ap (w.api.insert k v) e)

  -- The key in a request that needs one: its own, and else the derived one.
  abbrev key_with : Text → Option Text → Text
  key_with key none = key
  key_with key (some own) = own

  keyed_request-key :
      (key : Text) (req : Msg w)
      → w.api.is_valid key ≡ true
      → header w.api key_header (keyed_request w x true key req)
        ≡ some (key_with key (header w.api key_header req))
  keyed_request-key key req valid = elim (Option-cases (header w.api key_header req)) [
    | inl e ↦ simp (e, valid) (w.api.get-insert_self key_header key req.headers valid)
    | inr (own, e) ↦ simp (e) refl
  ]

  -- The request of an attempt before its key is put in.
  abbrev unkeyed : Prepared w x → Msg w → CallTarget → ℕ → Msg w
  unkeyed c msg target n =
      put_headers w x c.headers
        (bare_request w x c.method c.url msg target c.principal (body_for c.bodies n))

  -- The key of all the attempts of a call that is prepared.
  abbrev key_of : Prepared w x → Msg w → CallTarget → Text
  key_of c msg target = key_with c.key (header w.api key_header (unkeyed c msg target 1))

  abbrev HasKey : Text → Sent (Msg w) → Type 0
  HasKey key s = header w.api key_header s.request ≡ some key

  request_for-key :
      (c : Prepared w x) (msg : Msg w) (target : CallTarget) (n : ℕ)
      → needs_key c.effect ≡ true
      → w.api.is_valid c.key ≡ true
      → header w.api key_header (request_for w x c msg target n) ≡ some (key_of c msg target)
  unfolding request_for
  request_for-key c msg target n needs valid = rw needs (
      keyed_request-key c.key (unkeyed c msg target n) valid
      ∙ ap (λ h. some (key_with c.key (w.api.get key_header h)))
          (put_headers-same c.headers _ _ refl))

  sent_from-key :
      (place : Place) (c : Prepared w x) (msg : Msg w) (target : CallTarget) (n k : ℕ)
      → needs_key c.effect ≡ true
      → w.api.is_valid c.key ≡ true
      → All (HasKey (key_of c msg target)) (sent_from w x place c msg target n k)
  unfolding sent_from
  sent_from-key place c msg target n zero needs valid = tt
  sent_from-key place c msg target n (suc k) needs valid = (
    request_for-key c msg target n needs valid,
    sent_from-key place c msg target (suc n) k needs valid,
  )

  abbrev HasNoneOf : Option (List (Text × Text)) → List (Text × Text) → Type 0
  HasNoneOf none hs = hs ≡ []
  HasNoneOf (some spec_headers) hs = Unit

  key_of-IsDerived :
      (spec_headers : Option (List (Text × Text))) (derived : Text) (c : Prepared w x) (msg : Msg w)
      (target : CallTarget)
      → HasNoneOf spec_headers c.headers
      → c.key ≡ derived
      → IsDerived spec_headers derived (key_of c msg target)
  key_of-IsDerived (some spec_headers) derived c msg target h e = tt
  key_of-IsDerived none derived c msg target h e = simp (h, w.api.get-empty key_header) e

  headers_of-HasNoneOf :
      (spec_headers : Option (List (Text × Text))) (ctx : Fields) (hs : List (Text × Text))
      → headers_of w x spec_headers ctx ≡ ok hs
      → HasNoneOf spec_headers hs
  headers_of-HasNoneOf none ctx hs h = sym (ok-injective [] hs h)
  headers_of-HasNoneOf (some spec_headers) ctx hs h = tt

  -- What is known of a call that is prepared, before its headers are resolved and after.
  record IsKeyed (derived : Text) (c : Prepared w x) : Type 0 where
    needs : needs_key c.effect ≡ true
    same_key : c.key ≡ derived

  with_headers-IsKeyed :
      (call : CallSpec) (ctx : Fields) (derived : Text) (c ready : Prepared w x)
      → IsKeyed derived c
      → with_headers w x call ctx c ≡ ok ready
      → IsKeyed derived ready × HasNoneOf call.headers ready.headers
  unfolding with_headers
  with_headers-IsKeyed call ctx derived c ready k h =
      let (hs, r, h1) = bind-ok (headers_of w x call.headers ctx) _ ready h in
      let e = ok-injective (record c { headers = hs }) ready h1 in
      (
        record {
          needs = sym (ap (λ a. needs_key a.effect) e) ∙ k.needs;
          same_key = sym (ap (λ a. a.key) e) ∙ k.same_key;
        },
        headers_of-HasNoneOf call.headers ctx ready.headers (r ∙ ap (λ a. ok a.headers) e),
      )

  prepare-IsKeyed :
      (place : Place) (step : Step w x) (call : CallSpec) (msg : Msg w) (vars : Fields)
      (p : Prepared w x × (Fields × Msg w))
      → needs_key (call_effect w.method_of call) ≡ true
      → prepare w x place step call msg vars ≡ ok p
      → IsKeyed (derive_key w.codec.encode w.sha256 x.invocation_id (key_path place)) p.0
  unfolding prepare
  prepare-IsKeyed place step call msg vars p needs h =
      let ctx = interpolation_context w x msg vars in
      let (method, m, h1) =
        bind-ok (method_result w x call.method (w.method_of call.method)) _ p h in
      let (url, u, h2) = bind-ok (resolve_text w x.url ctx call.url) _ p h1 in
      let (b, kept, h3) = bind-ok (bodies_of w x method (is_some step.capture) msg) _ p h2 in
      let e = ok-injective (prepared w x place step call ctx method url b) p h3 in
      record {
        needs = sym (ap (λ a. needs_key a.0.effect) e) ∙ needs;
        same_key = sym (ap (λ a. a.0.key) e);
      }

  -- One key for all the requests.
  abbrev pub ShareKey : Option (List (Text × Text)) → Text → List (Sent (Msg w)) → Type 0
  ShareKey spec_headers derived log =
      (key : Text) × IsDerived spec_headers derived key × All (HasKey key) log

  none-ShareKey :
      (spec_headers : Option (List (Text × Text))) (derived : Text)
      → ShareKey spec_headers derived []
  none-ShareKey none derived = (derived, refl, tt)
  none-ShareKey (some spec_headers) derived = (derived, tt, tt)

  lift-ShareKey :
      {A B : Type 0} (spec_headers : Option (List (Text × Text))) (derived : Text) (r : Result A)
      (later : A → Exec (Msg w) B)
      → ((a : A) → r ≡ ok a → ShareKey spec_headers derived ((later a).0))
      → ShareKey spec_headers derived ((lift r >>= later).0)
  lift-ShareKey spec_headers derived (err e) later k = none-ShareKey spec_headers derived
  lift-ShareKey spec_headers derived (ok a) later k = k a refl

  perform-key :
      (spec_headers : Option (List (Text × Text))) (derived : Text) (place : Place)
      (step : Step w x) (c : Prepared w x) (msg : Msg w) (external : Bool) (r : Result CallTarget)
      → IsKeyed derived c
      → HasNoneOf spec_headers c.headers
      → w.api.is_valid derived ≡ true
      → ShareKey spec_headers derived ((perform w x place step c msg external r).0)
  perform-key spec_headers derived place step c msg external (err e) k h valid =
      none-ShareKey spec_headers derived
  perform-key spec_headers derived place step c msg external (ok target) k h valid = (
    key_of c msg target,
    key_of-IsDerived spec_headers derived c msg target h k.same_key,
    sent_from-key place c msg target 1 ((retried w x place step c msg target).attempts) k.needs
        (ap w.api.is_valid k.same_key ∙ valid),
  )

  dispatched-ShareKey :
      (place : Place) (step : Step w x) (call : CallSpec) (vars : Fields) (derived : Text)
      (msg : Msg w) (c : Prepared w x) (ctx : Fields) (u : Outcome Bool)
      → IsKeyed derived c
      → w.api.is_valid derived ≡ true
      → ShareKey call.headers derived ((dispatched w x place step call vars c ctx msg u).0)
  dispatched-ShareKey place step call vars derived msg c ctx panic k valid =
      none-ShareKey call.headers derived
  dispatched-ShareKey place step call vars derived msg c ctx (returned external) k valid =
      lift-ShareKey call.headers derived (with_headers w x call ctx c) _ λ ready e.
        let (kept, h) = with_headers-IsKeyed call ctx derived c ready k e in
        let target = target_of x.external ready.url external in
        let (key, same, all_have) =
          perform-key call.headers derived place step ready msg external target kept h valid in
        (
          key,
          same,
          All-bind (HasKey key) (perform w x place step ready msg external target) _ all_have
              λ out m.
                settled-silent w x (HasKey key) step vars msg (named w x step.name msg.name out),
        )

-- All the requests of a call that is keyed or unsafe, of all its attempts, carry one idempotency
-- key, if the derived key is a header value; and that is the key derived from the invocation and
-- the place of the call, if the call has no headers of its own.
pub run_call-ShareKey :
    (w : World) (x : Executor (w.floats.F)) (place : Place) (step : Step w x) (call : CallSpec)
    (msg : Msg w) (vars : Fields)
    → needs_key (call_effect w.method_of call) ≡ true
    → w.api.is_valid (derive_key w.codec.encode w.sha256 x.invocation_id (key_path place)) ≡ true
    → ShareKey w x call.headers
        (derive_key w.codec.encode w.sha256 x.invocation_id (key_path place))
        ((run_call w x place step call msg vars).0)
unfolding run_call
run_call-ShareKey w x place step call msg vars needs valid =
    lift-ShareKey w x call.headers _ (prepare w x place step call msg vars) _ λ p e.
      dispatched-ShareKey w x place step call vars _ p.1.1 p.0 p.1.0 (is_external_url p.0.url)
        (prepare-IsKeyed w x place step call msg vars p needs e) valid
