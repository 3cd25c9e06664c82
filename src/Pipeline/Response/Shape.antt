-- ===== src/Pipeline/Response/Shape.antt =====
-- What a directive that is applied makes of a response.
use rs2_runtime.Common.{
  ℕ, ◌^◌, ◌≤◌, ◌≡◌, refl, sym, ap, ◌∙◌, Bool, true, Option, none, some, ltb, arith,
}
use rs2_runtime.Common.Text.{Text, lit}
use rs2_runtime.Error.Bind.{bind-ok, ok-injective, if-ok}
use rs2_runtime.Error.{ok}
use rs2_runtime.Json.{
  Value, null, boolean, number, string, array, object, Fields, end, field, pos_int, neg_int, float,
  lookup,
}
use rs2_runtime.Message.{Message, HeaderApi, Body, Payload, MediaType, Bytes, bytes}
use rs2_runtime.Pipeline.Response.{
  is_known, check_keys, status_code, status_value, status_of, media_type_of, headers_of, body_text,
  body_of, apply,
}

abbrev pub KnownFields : Fields → Type 0
KnownFields end = Unit
KnownFields (field key v rest) = (is_known key ≡ true) × KnownFields rest

-- The status that a directive asks for.
abbrev pub Asked : Option Value → ℕ → Type 0
Asked none s = s ≡ 200
Asked (some v) s = (v ≡ number (pos_int s)) × (100 ≤ s) × (s ≤ 999)

abbrev pub payload_of : Option Body → Option Payload
payload_of none = none
payload_of (some body) = some body.payload

-- The content, where a directive has a body and where it has none.
abbrev pub payload_for :
    (Value → Text) → (Text → Bytes) → Option Value → Option Body → Option Payload
payload_for text encode none before = payload_of before
payload_for text encode (some v) before = some (bytes (encode (text v)))

check_keys-KnownFields : (fs : Fields) (done : Unit {0}) → check_keys fs ≡ ok done → KnownFields fs
check_keys-KnownFields end done h = tt
check_keys-KnownFields (field key v rest) done h =
    let (known, later) = if-ok (is_known key) (check_keys rest) _ done h in
    (known, check_keys-KnownFields rest done later)

status_code-bounds : (n s : ℕ) → status_code n ≡ ok s → (n ≡ s) × (100 ≤ s) × (s ≤ 999)
status_code-bounds n s h = ground arith

module _ (api : HeaderApi) (is_name : Text → Bool) (display : Value → Text)
    (encode : Text → Bytes) where
  status_value-Asked :
      (v : Value) (s : ℕ) → status_value api is_name display encode v ≡ ok s → Asked (some v) s
  status_value-Asked (number (pos_int n)) s h =
      let (small, e) = if-ok (ltb n (2 ^ 16)) (status_code n) _ s h in
      let (same, low, high) = status_code-bounds n s e in
      (ap (λ k. number (pos_int k)) same, low, high)
  status_value-Asked (number (neg_int n)) s h = absurd (cc)
  status_value-Asked (number (float n)) s h = absurd (cc)
  status_value-Asked null s h = absurd (cc)
  status_value-Asked (boolean b) s h = absurd (cc)
  status_value-Asked (string t) s h = absurd (cc)
  status_value-Asked (array xs) s h = absurd (cc)
  status_value-Asked (object fs) s h = absurd (cc)

  status_of-Asked :
      (v : Option Value) (s : ℕ) → status_of api is_name display encode v ≡ ok s → Asked v s
  status_of-Asked none s h = ground arith
  status_of-Asked (some v) s h = status_value-Asked v s h

  payload_of-body_of :
      (mt : Option MediaType) (v : Option Value) (before : Option Body)
      → payload_of (body_of api is_name display encode mt v before)
        ≡ payload_for (body_text api is_name display encode) encode v before
  payload_of-body_of none none before = refl
  payload_of-body_of (some mt) none none = refl
  payload_of-body_of (some mt) none (some body) = refl
  payload_of-body_of mt (some v) before = refl

-- A response directive that is applied has no field but the four; the status of the response is
-- 200, where it asks for none, and else the one it asks for, from 100 to 999; the content is that
-- of its body, where it has one, and else what it was; and the headers are those that it sets on
-- the ones before.
pub apply-IsShaped :
    (api : HeaderApi) (is_name : Text → Bool) (display : Value → Text) (encode : Text → Bytes)
    (inner : Fields) (msg shaped : Message (api.Map))
    → apply api is_name display encode inner msg ≡ ok shaped
    → KnownFields inner
      × ((s : ℕ) × (shaped.status ≡ some s) × Asked (lookup (lit "status") inner) s)
      × (payload_of shaped.body
          ≡ payload_for
              (body_text api is_name display encode)
              encode
              (lookup (lit "body") inner)
              msg.body)
      × (headers_of api is_name display encode (lookup (lit "headers") inner) msg.headers
          ≡ ok shaped.headers)
unfolding apply
apply-IsShaped api is_name display encode inner msg shaped h =
    let (done, keys, h1) = bind-ok (check_keys inner) _ shaped h in
    let (s, status, h2) =
      bind-ok (status_of api is_name display encode (lookup (lit "status") inner)) _ shaped h1 in
    let (mt, typed, h3) =
      bind-ok (media_type_of api is_name display encode (lookup (lit "mediaType") inner)) _ shaped
        h2 in
    let (headers, set, h4) =
      bind-ok (headers_of api is_name display encode (lookup (lit "headers") inner) msg.headers) _
        shaped h3 in
    let e = ok-injective _ shaped h4 in
    (
      check_keys-KnownFields inner done keys,
      (
        s,
        sym (ap (λ m. m.status) e),
        status_of-Asked api is_name display encode (lookup (lit "status") inner) s status,
      ),
      sym (ap (λ m. payload_of m.body) e)
          ∙ payload_of-body_of api is_name display encode mt (lookup (lit "body") inner) msg.body,
      set ∙ ap (λ m. ok m.headers) e,
    )
