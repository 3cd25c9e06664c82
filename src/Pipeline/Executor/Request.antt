-- ===== src/Pipeline/Executor/Request.antt =====
-- What `run_call` of rs2-core/src/pipeline/executor.rs makes the request of a call from: the interpolation
-- context, the bodies, the headers, and the request of an attempt.
use rs2_runtime.Common.{
  ◌%◌, ◌^◌, ℕ, ◌+◌, Bool, Option, none, some, List, [], ◌∷◌, ◌++◌, not, keep, is_some, ◌&&◌,
  if◌then◌else◌,
}
use rs2_runtime.Common.Text.{Text, lit, split, is_empty, to_ascii_lowercase}
use rs2_runtime.Error.{Result, ok, err, ◌>>=◌, bad_request}
use rs2_runtime.Error.Problem.{put_all}
use rs2_runtime.Json.{Value, null, string, number, pos_int, object, Fields, end, field}
use rs2_runtime.Message.{Method, Principal, Body, header, set_header, is_ok, internal}
use rs2_runtime.Message.Url.{parse}
use rs2_runtime.Message.MediaTypes.{is_json}
use rs2_runtime.Message.Materialize.{materialize}
use rs2_runtime.Message.Content.{is_stream, as_json, as_any}
use rs2_runtime.Retry.{EffectClass}
use rs2_runtime.Pipeline.Spec.{CallSpec, StepParts, call_effect}
use rs2_runtime.Pipeline.Executor.Base.{
  World, Executor, Place, key_path, and_then_body, materialize_if_needed, status_or, Msg,
  resolve_text,
}
use rs2_runtime.Pipeline.Executor.Target.{
  derive_key, elevated, needs_key, has_no_body, Bodies, taken, body_for, query_fields, CallTarget,
  is_inside,
}

module _ (w : World) (x : Executor (w.floats.F)) where
  abbrev pub merge_body : Option Body → Fields → Fields
  merge_body none ctx = ctx
  merge_body (some body) ctx =
      if is_json body.media_type && not (is_stream body)
      then elim ((as_json w.codec x.limits.materialize_cap body).1) [
        | err e ↦ ctx
        | ok v ↦ elim v [ object fs ↦ put_all fs ctx | _ ↦ ctx ]
      ]
      else ctx

  -- `interpolation_context`: the body is in memory where it is read, and so unchanged.
  unfoldable pub interpolation_context : Msg w → Fields → Fields
  unfolding split
  interpolation_context msg vars =
      let pairs = keep (λ p. not (is_empty p)) (split b'&' msg.url.query) in
      put_all vars (merge_body msg.body (query_fields pairs end))

  -- `body_text`.
  unfoldable pub body_text : Option Body → Text
  unfolding materialize
  body_text none = []
  body_text (some body) = elim ((materialize x.limits.materialize_cap body).1) [
    | ok raw ↦ w.codec.from_utf8_lossy raw
    | err e ↦ []
  ]

  abbrev pub error_value : Msg w → Value
  error_value out = object (
      field (lit "_errorStatus") (number (pos_int (status_or 500 out.status)))
        (field (lit "_errorMessage") (string (body_text out.body)) end))

  abbrev pub any_of_body : Option Body → Result Value
  any_of_body none = ok null
  any_of_body (some body) = (as_any w.codec x.limits.materialize_cap body).1

  -- What a response is as a value: for a captured variable, and in a join.
  abbrev pub value_of : Msg w → Result Value
  value_of out = if is_ok out then any_of_body out.body else ok (error_value out)

  abbrev pub preserved : Result (Msg w) → Result (Bodies × Msg w)
  preserved (err e) = err e
  preserved (ok m) = ok ((and_then_body m.body, none), m)

  abbrev pub bodies_of : Method → Bool → Msg w → Result (Bodies × Msg w)
  bodies_of method preserve msg =
      if has_no_body method
      then ok ((none, none), msg)
      else if preserve
      then preserved (materialize_if_needed x.limits.materialize_cap msg)
      else ok (taken msg.body, record msg { body = none })

  abbrev pub header_value : Text → Text → Result (Text × Text)
  header_value k value =
      if w.api.is_valid value
      then ok (to_ascii_lowercase k, value)
      else err (bad_request (lit "header '" ++ (k ++ lit "' resolved to an invalid header value")))

  unfoldable pub resolved_header : Text → Text → Fields → Result (Text × Text)
  unfolding resolve_text
  resolved_header k v ctx =
      if w.is_name k
      then (resolve_text w x.url ctx v >>= header_value k)
      else err (bad_request (lit "invalid header name '" ++ (k ++ lit "'")))

  unfoldable pub resolve_headers : List (Text × Text) → Fields → Result (List (Text × Text))
  unfolding resolved_header
  resolve_headers [] ctx = ok []
  resolve_headers ((k, v) ∷ rest) ctx =
      resolved_header k v ctx >>= λ h. resolve_headers rest ctx >>= λ hs. ok (h ∷ hs)

  abbrev pub headers_of : Option (List (Text × Text)) → Fields → Result (List (Text × Text))
  headers_of none ctx = ok []
  headers_of (some spec_headers) ctx = resolve_headers spec_headers ctx

  abbrev pub put_headers : List (Text × Text) → Msg w → Msg w
  put_headers [] req = req
  put_headers ((k, v) ∷ rest) req =
      put_headers rest (record req { headers = w.api.insert k v req.headers })

  -- The idempotency key, where the call needs one and has none.
  abbrev pub keyed_request : Bool → Text → Msg w → Msg w
  keyed_request needs key req =
      if needs && not (is_some (header w.api (lit "idempotency-key") req))
      then set_header w.api (lit "idempotency-key") key req
      else req

  -- The request of an attempt before its headers: `Message::request`, and the fields set on it. The
  -- depth is a u16, which wraps where overflows are not checked.
  abbrev pub bare_request :
      Method → Text → Msg w → CallTarget → Option Principal → Option Body → Msg w
  bare_request method url msg target principal body = record {
    method = method;
    url = parse url;
    headers = w.api.empty;
    status = none;
    body = body;
    tenant = msg.tenant;
    principal = if is_inside target then principal else none;
    source = internal;
    name = none;
    depth = (msg.depth + 1) % 2 ^ 16;
  }

  -- What a call is made of, once it is resolved.
  pub record Prepared : Type 0 where
    pub method : Method
    pub url : Text
    pub effect : EffectClass
    pub bodies : Bodies
    pub headers : List (Text × Text)
    pub principal : Option Principal
    pub key : Text

  unfoldable pub request_for : Prepared → Msg w → CallTarget → ℕ → Msg w
  request_for c msg target n = keyed_request (needs_key c.effect) c.key (
      put_headers c.headers
        (bare_request c.method c.url msg target c.principal (body_for c.bodies n)))

  abbrev pub method_result : Text → Option Method → Result Method
  method_result name none = err (bad_request (lit "invalid method '" ++ (name ++ lit "'")))
  method_result name (some method) = ok method

  abbrev pub prepared :
      Place
      → StepParts (w.floats.F)
      → CallSpec
      → Fields
      → Method
      → Text
      → Bodies × Msg w
      → Prepared × (Fields × Msg w)
  prepared place step call ctx method url (bodies, msg) = (
    record {
      method = method;
      url = url;
      effect = call_effect w.method_of call;
      bodies = bodies;
      headers = [];
      principal = elevated step.elevate x.elevate_role msg.principal;
      key = derive_key w.codec.encode w.sha256 x.invocation_id (key_path place);
    },
    (ctx, msg),
  )

  -- What comes before the test of the URL; the context and the message go on beside it.
  unfoldable pub prepare :
      Place
      → StepParts (w.floats.F)
      → CallSpec
      → Msg w
      → Fields
      → Result (Prepared × (Fields × Msg w))
  unfolding interpolation_context resolve_text derive_key key_path
  prepare place step call msg vars =
      let ctx = interpolation_context msg vars in
      method_result call.method (w.method_of call.method) >>= λ method.
      resolve_text w x.url ctx call.url >>= λ url.
      bodies_of method (is_some step.capture) msg >>= λ b.
      ok (prepared place step call ctx method url b)

  unfoldable pub with_headers : CallSpec → Fields → Prepared → Result Prepared
  unfolding resolve_headers
  with_headers call ctx c = headers_of call.headers ctx >>= λ hs. ok (record c { headers = hs })
