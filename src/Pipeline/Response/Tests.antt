-- ===== src/Pipeline/Response/Tests.antt =====
-- A directive to run, and the theorem at it.
use rs2_runtime.Common.{ℕ, ◌≡◌, refl, Bool, true, none, some, [], ◌∷◌}
use rs2_runtime.Common.Text.{Text, lit, texts, text_eq, to_ascii_lowercase}
use rs2_runtime.Error.{ok, err, bad_request}
use rs2_runtime.Json.{Value, Fields, end, field, string, number, boolean, pos_int, object, lookup}
use rs2_runtime.Message.{Message, Bytes, get, external}
use rs2_runtime.Message.Headers.{header_list}
use rs2_runtime.Message.MediaTypes.{new}
use rs2_runtime.Message.Content.{from_string}
use rs2_runtime.Pipeline.Response.{detect, put_headers, apply, headers_of, body_text}
use rs2_runtime.Pipeline.Response.Shape.{
  KnownFields, Asked, payload_of, payload_for, apply-IsShaped,
}

abbrev request : Message (header_list.Map)
request = record {
  method = get;
  url = record { path = lit "/x"; query = []; base_path = []; service_path = lit "/x" };
  headers = header_list.empty;
  status = none;
  body = none;
  tenant = lit "acme";
  principal = none;
  source = external;
  name = none;
  depth = 0;
}

abbrev is_name : Text → Bool
is_name t = true

abbrev display : Value → Text
display v = lit "…"

-- `encode` at a text of ASCII characters.
abbrev encode : Text → Bytes
encode t = t

abbrev created : Fields
created = field (lit "status") (number (pos_int 201)) (
    field (lit "headers") (object (field (lit "Location") (string (lit "/x/1")) end))
      (field (lit "body") (string (lit "created")) end))

abbrev shaped : Message (header_list.Map)
shaped = record request {
  status = some 201;
  headers = (lit "location", lit "/x/1") ∷ [];
  body = some (from_string encode (lit "created") (new (lit "text/plain")));
}

unfoldable all_of : Unit {0}
unfolding texts text_eq to_ascii_lowercase lookup detect put_headers apply
all_of = tt

detect-created : detect (object (field (lit "$response") (object created) end)) ≡ some created
unfolding all_of
detect-created = refl

detect_beside :
    detect (object (field (lit "$response") (object created) (field (lit "x") (boolean true) end)))
    ≡ none
unfolding all_of
detect_beside = refl

apply-created : apply header_list is_name display encode created request ≡ ok shaped
unfolding all_of
apply-created = refl

apply_out_of_range :
    apply header_list is_name display encode
      (field (lit "status") (number (pos_int 1000)) end)
      request
    ≡ err (bad_request (lit "$response.status 1000 is not a valid HTTP status"))
unfolding all_of
apply_out_of_range = refl

apply-IsShaped_example :
    KnownFields created
    × ((s : ℕ) × (shaped.status ≡ some s) × Asked (lookup (lit "status") created) s)
    × (payload_of shaped.body
        ≡ payload_for
            (body_text header_list is_name display encode)
            encode
            (lookup (lit "body") created)
            request.body)
    × (headers_of header_list is_name display encode
          (lookup (lit "headers") created)
          request.headers
        ≡ ok shaped.headers)
apply-IsShaped_example =
    apply-IsShaped header_list is_name display encode created request shaped apply-created
