-- ===== src/Idempotency/Http.antt =====
-- The parts of rs2-core/src/idempotency.rs that read and write messages: the scope and the payload hash
-- of a request, the capture of a response and its replay. SHA-256, the names of methods, and the
-- iteration and the name check of the header map are parameters.
use rs2_runtime.Common.{
  ℕ, ◌≡◌, ◌≢◌, refl, Bool, Option, none, some, List, [], ◌∷◌, ◌++◌, ◌&&◌, leb, length, All,
  if◌then◌else◌,
}
use rs2_runtime.Common.Text.{Text, lit}
use rs2_runtime.Crypto.{to_hex}
use rs2_runtime.Error.{Result, ok, err}
use rs2_runtime.Message.{
  Body, Bytes, Payload, bytes, stream, materialized, Method, Message, HeaderApi, response,
  set_header,
}
use rs2_runtime.Message.MediaTypes.{parse, to_string}
use rs2_runtime.Message.Materialize.{materialize}
use rs2_runtime.Idempotency.{StoredResponse}

abbrev pub from_bytes : Bytes → Text → Body
from_bytes b mt = record {
  payload = bytes b;
  media_type = parse mt;
  size = some (length b);
  last_modified = none;
  provenance = materialized;
}

abbrev stored_body : Option (Bytes × Text) → Option Body
stored_body none = none
stored_body (some (b, mt)) = some (from_bytes b mt)

-- The numbers that `StatusCode::from_u16` takes.
abbrev pub status_or_500 : ℕ → ℕ
status_or_500 status = if leb 100 status && leb status 999 then status else 500

module _ (api : HeaderApi) (is_name : Text → Bool) where
  abbrev pub put_headers : List (Text × Text) → api.Map → api.Map
  put_headers [] m = m
  put_headers ((k, v) ∷ rest) m =
      put_headers rest (if is_name k && api.is_valid v then api.insert k v m else m)

  -- `StoredResponse::into_message`.
  unfoldable pub into_message : StoredResponse → Message (api.Map) → Message (api.Map)
  into_message stored template =
      let resp = response api template (status_or_500 stored.status) (stored_body stored.body) in
      set_header api (lit "idempotency-replayed") (lit "true")
        (record resp { headers = put_headers stored.headers resp.headers })

abbrev pub status_or_200 : Option ℕ → ℕ
status_or_200 none = 200
status_or_200 (some status) = status

module _ {H : Type 0} (iter : H → List (Text × Text)) where
  abbrev store : Message H → Body × Result Bytes → Message H × Option StoredResponse
  store resp (body, err e) = (record resp { body = some body }, none)
  store resp (body, ok b) = (
    record resp { body = some body },
    some (record {
      status = status_or_200 resp.status;
      headers = iter resp.headers;
      body = some (b, to_string body.media_type);
    }),
  )

  abbrev capture_body : ℕ → Message H → Option Body → Message H × Option StoredResponse
  capture_body body_cap resp none = (
    resp,
    some (record { status = status_or_200 resp.status; headers = iter resp.headers; body = none }),
  )
  capture_body body_cap resp (some b) = store resp (materialize body_cap b)

  -- `iter` gives the headers whose value is a text, in the order of the map.
  unfoldable pub capture_response : Message H → ℕ → Message H × Option StoredResponse
  capture_response resp body_cap = capture_body body_cap resp resp.body

module _ {H : Type 0} (method_name : Method → Text) where
  unfoldable pub scope_for : Message H → Text → Text
  scope_for msg mount_base =
      msg.tenant ++ (b'|' ∷ mount_base ++ (b'|' ∷ method_name msg.method ++ (b'|' ∷ msg.url.path)))

module _ (sha256 : Bytes → Bytes) where
  abbrev hash_payload : Payload → Option Text
  hash_payload (bytes b) = some (to_hex (sha256 b))
  hash_payload (stream cs) = none

  abbrev pub hash_body : Option Body → Option Text
  hash_body none = some (lit "empty")
  hash_body (some b) = hash_payload b.payload

  unfoldable pub payload_hash : {H : Type 0} → Message H → Option Text
  payload_hash msg = hash_body msg.body

-- A text up to a separator that it does not contain, and what follows, are determined.
cut_unique :
    (sep : ℕ) (p q r s : Text)
    → All (λ c. c ≢ sep) p
    → All (λ c. c ≢ sep) q
    → p ++ sep ∷ r ≡ q ++ sep ∷ s
    → (p ≡ q) × (r ≡ s)
cut_unique sep [] [] r s h k e = (refl, cc)
cut_unique sep [] (b ∷ q) r s h (k, ks) e = absurd (k cc)
cut_unique sep (a ∷ p) [] r s (h, hs) k e = absurd (h cc)
cut_unique sep (a ∷ p) (b ∷ q) r s (h, hs) (k, ks) e =
    let (same, rest) = cut_unique sep p q r s hs ks cc in (cc (same), rest)

-- Two requests with the same scope have the same tenant, mount, method and path, if tenants,
-- mount paths and method names have no bar in them.
pub scope_for-injective :
    {H : Type 0} (method_name : Method → Text) (a b : Message H) (base other : Text)
    → All (λ c. c ≢ b'|') a.tenant
    → All (λ c. c ≢ b'|') b.tenant
    → All (λ c. c ≢ b'|') base
    → All (λ c. c ≢ b'|') other
    → All (λ c. c ≢ b'|') (method_name a.method)
    → All (λ c. c ≢ b'|') (method_name b.method)
    → scope_for method_name a base ≡ scope_for method_name b other
    → (a.tenant ≡ b.tenant)
      × (base ≡ other)
      × (method_name a.method ≡ method_name b.method)
      × (a.url.path ≡ b.url.path)
unfolding scope_for
scope_for-injective method_name a b base other h k i j l m e =
    let (tenant, after) = cut_unique b'|' a.tenant b.tenant _ _ h k e in
    let (mount, last) = cut_unique b'|' base other _ _ i j after in
    let (method, path) =
      cut_unique b'|' (method_name a.method) (method_name b.method) _ _ l m last in
    (tenant, mount, method, path)
