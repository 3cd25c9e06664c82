-- ===== src/Pipeline/Response.antt =====
-- rs2-core/src/pipeline/response.rs: the directive `$response` of a transform, which shapes a response.
-- A failed directive drops the message. The name check of the http crate, the display of a JSON
-- value and the UTF-8 form of a text are parameters.
pub mod Shape
mod Tests
use rs2_runtime.Common.{
  ℕ, ◌^◌, Bool, true, false, Option, none, some, List, [], ◌∷◌, ◌++◌, ◌&&◌, leb, ltb, any,
  if◌then◌else◌,
}
use rs2_runtime.Common.Text.{Text, lit, text_eq, to_ascii_lowercase}
use rs2_runtime.Common.Text.Decimal.{decimal}
use rs2_runtime.Error.{Result, ok, err, ◌>>=◌, bad_request}
use rs2_runtime.Json.{
  Value, null, boolean, number, string, array, object, Fields, end, field, Number, pos_int, neg_int,
  float, lookup, unwrap_or,
}
use rs2_runtime.Message.{Message, HeaderApi, Body, MediaType, Bytes}
use rs2_runtime.Message.MediaTypes.{new}
use rs2_runtime.Message.Content.{from_string}

-- `ResponseEnvelope::detect`.
abbrev as_object : Value → Option Fields
as_object (object inner) = some inner
as_object _ = none

unfoldable pub detect : Value → Option Fields
unfolding text_eq
detect (object (field name v end)) = if text_eq name (lit "$response") then as_object v else none
detect _ = none

abbrev pub known_fields : List Text
known_fields = lit "status" ∷ lit "headers" ∷ lit "mediaType" ∷ lit "body" ∷ []

abbrev pub is_known : Text → Bool
is_known key = any (text_eq key) known_fields

abbrev unknown_field : Text → Text
unknown_field key =
    lit "$response: unknown field '" ++ (key ++ lit "' (have: status, headers, mediaType, body)")

abbrev pub check_keys : Fields → Result (Unit {0})
check_keys end = ok tt
check_keys (field key v rest) =
    if is_known key then check_keys rest else err (bad_request (unknown_field key))

-- `StatusCode::from_u16`.
abbrev pub status_code : ℕ → Result ℕ
status_code code =
    if leb 100 code && leb code 999
    then ok code
    else err (
        bad_request
          (lit "$response.status " ++ (decimal code ++ lit " is not a valid HTTP status")))

module _ (api : HeaderApi) (is_name : Text → Bool) (display : Value → Text)
    (encode : Text → Bytes) where
  abbrev pub no_status : Value → Result ℕ
  no_status v = err (bad_request (lit "$response.status must be an integer, got " ++ display v))

  abbrev pub status_value : Value → Result ℕ
  status_value (number (pos_int n)) =
      if ltb n (2 ^ 16) then status_code n else no_status (number (pos_int n))
  status_value v = no_status v

  abbrev pub status_of : Option Value → Result ℕ
  status_of none = ok 200
  status_of (some v) = status_value v

  abbrev pub media_type_of : Option Value → Result (Option MediaType)
  media_type_of none = ok none
  media_type_of (some (string s)) = ok (some (new s))
  media_type_of (some v) =
      err (bad_request (lit "$response.mediaType must be a string, got " ++ display v))

  abbrev pub body_text : Value → Text
  body_text (string s) = s
  body_text v = display v

  abbrev pub default_type : Value → MediaType
  default_type (string s) = new (lit "text/plain")
  default_type v = new (lit "application/json")

  abbrev pub body_of : Option MediaType → Option Value → Option Body → Option Body
  body_of mt (some v) before =
      some (from_string encode (body_text v) (unwrap_or mt (default_type v)))
  body_of none none before = before
  body_of (some mt) none none = none
  body_of (some mt) none (some body) = some (record body { media_type = mt })

  abbrev pub scalar : Text → Value → Result Text
  scalar name (string s) = ok s
  scalar name (number n) = ok (display (number n))
  scalar name (boolean true) = ok (lit "true")
  scalar name (boolean false) = ok (lit "false")
  scalar name v = err (
      bad_request
        (lit "$response.headers." ++ (name ++ (lit " must be a scalar, got " ++ display v))))

  -- A header name is kept in lower case.
  abbrev pub put_header : Text → Text → api.Map → Result (api.Map)
  put_header name v headers =
      if is_name name
      then if api.is_valid v
        then ok (api.insert (to_ascii_lowercase name) v headers)
        else err (
            bad_request
              (lit "$response: invalid value for header '" ++ (to_ascii_lowercase name ++ lit "'")))
      else err (bad_request (lit "$response: invalid header name '" ++ (name ++ lit "'")))

  unfoldable pub put_headers : Fields → api.Map → Result (api.Map)
  put_headers end headers = ok headers
  put_headers (field name v rest) headers =
      scalar name v >>= λ t. put_header name t headers >>= λ set. put_headers rest set

  abbrev pub headers_of : Option Value → api.Map → Result (api.Map)
  headers_of none headers = ok headers
  headers_of (some (object fs)) headers = put_headers fs headers
  headers_of (some v) headers =
      err (bad_request (lit "$response.headers must be an object, got " ++ display v))

  -- `ResponseEnvelope::apply`.
  unfoldable pub apply : Fields → Message (api.Map) → Result (Message (api.Map))
  unfolding lookup
  apply inner msg = check_keys inner >>= λ checked.
      status_of (lookup (lit "status") inner) >>= λ status.
      media_type_of (lookup (lit "mediaType") inner) >>= λ media_type.
      headers_of (lookup (lit "headers") inner) msg.headers >>= λ headers. ok (record msg {
        status = some status;
        headers = headers;
        body = body_of media_type (lookup (lit "body") inner) msg.body;
      })
