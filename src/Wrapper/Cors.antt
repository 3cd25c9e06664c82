-- ===== src/Wrapper/Cors.antt =====
-- `CorsPolicy` of rs2-core/src/wrapper/mod.rs, and `is_websocket_upgrade` of rs2-core/src/sockets.rs.
pub mod Origins
pub mod Credentials
mod Tests
use rs2_runtime.Common.{
  ℕ, Bool, true, false, ◌&&◌, ◌||◌, Option, none, some, List, [], ◌∷◌, ◌++◌, any, not, ◌==◌,
  if◌then◌else◌,
}
use rs2_runtime.Common.Text.{
  Text, lit, text_eq, split, trim, trim_end_matches, strip_prefix, ends_with, contains_str,
  to_ascii_lowercase, eq_ignore_ascii_case,
}
use rs2_runtime.Error.{Result, ok, err, RsError, forbidden}
use rs2_runtime.Json.{unwrap_or}
use rs2_runtime.Message.{
  Message, Method, get, head, options, HeaderApi, header, set_header, response,
}
use rs2_runtime.Wrapper.Vary.{append_header_value}

pub record CorsPolicy : Type 0 where
  pub trusted_origins : List Text
  pub allowed_origins : List Text

abbrev first_some : Option Text → Option Text → Option Text
first_some none b = b
first_some (some a) b = some a

-- What follows the first occurrence of a separator (the second half of `split_once`).
unfoldable pub after_once : Text → Text → Option Text
after_once sep [] = strip_prefix sep []
after_once sep (c ∷ s) = let rest = after_once sep s in first_some (strip_prefix sep (c ∷ s)) rest

unfoldable pub host_port_of : Text → Text
host_port_of origin = unwrap_or (after_once (lit "://") origin) origin

abbrev pub first_piece : List Text → Text → Text
first_piece [] d = d
first_piece (w ∷ ws) d = w

unfoldable pub host_of : Text → Text
host_of host_port = first_piece (split b':' host_port) host_port

-- A host pattern: a wildcard, a host with a port, or a host.
abbrev pub host_matches : Option Text → Text → Text → Bool
host_matches (some suffix) pattern host_port =
    text_eq (host_of host_port) suffix || ends_with (b'.' ∷ suffix) (host_of host_port)
host_matches none pattern host_port =
    if any (λ c. c == b':') pattern
    then text_eq host_port pattern
    else text_eq (host_of host_port) pattern

abbrev pub pattern_matches : Text → Text → Bool
pattern_matches pattern origin =
    if text_eq pattern (lit "*")
    then true
    else if contains_str (lit "://") pattern
    then text_eq (trim_end_matches b'/' pattern) (trim_end_matches b'/' origin)
    else host_matches (strip_prefix (lit "*.") pattern) pattern (host_port_of origin)

unfoldable pub origin_matches : Text → Text → Bool
origin_matches pattern origin =
    pattern_matches (to_ascii_lowercase pattern) (to_ascii_lowercase origin)

abbrev pub same_host : Text → Option Text → Bool
same_host origin none = false
same_host origin (some request_host) =
    eq_ignore_ascii_case (host_port_of origin) (trim request_host)

unfoldable pub is_same_origin : Text → Option Text → Bool
is_same_origin origin request_host = same_host origin request_host

unfoldable pub is_trusted : CorsPolicy → Text → Bool
is_trusted policy origin = any (λ p. origin_matches p origin) policy.trusted_origins

unfoldable pub is_allowed : CorsPolicy → Text → Bool
is_allowed policy origin =
    is_trusted policy origin || any (λ p. origin_matches p origin) policy.allowed_origins

abbrev pub exposed_headers : Text
exposed_headers =
    lit "etag, location, link, x-total-count, x-trace-id, idempotency-replayed, retry-after"

abbrev pub default_allow_headers : Text
default_allow_headers = lit "authorization, content-type, idempotency-key, if-match"

-- The methods that change nothing.
abbrev pub is_safe : Method → Bool
is_safe get = true
is_safe head = true
is_safe options = true
is_safe _ = false

abbrev pub is_websocket : Option Text → Bool
is_websocket none = false
is_websocket (some u) = eq_ignore_ascii_case (trim u) (lit "websocket")

module _ (api : HeaderApi) where
  -- `sockets::is_websocket_upgrade`.
  unfoldable pub is_websocket_upgrade : Message (api.Map) → Bool
  is_websocket_upgrade msg = is_websocket (header api (lit "upgrade") msg)

  abbrev pub allow_credentials : Bool → Message (api.Map) → Message (api.Map)
  allow_credentials trusted resp =
      if trusted
      then set_header api (lit "access-control-allow-credentials") (lit "true") resp
      else resp

  abbrev pub allow_origin : Text → Message (api.Map) → Message (api.Map)
  allow_origin origin resp =
      append_header_value api (set_header api (lit "access-control-allow-origin") origin resp)
        (lit "vary") (lit "origin")

  unfoldable pub decorate : CorsPolicy → Message (api.Map) → Text → Option Text → Message (api.Map)
  decorate policy resp origin request_host =
      if is_same_origin origin request_host || not (is_allowed policy origin)
      then resp
      else allow_credentials (is_trusted policy origin) (
          set_header api (lit "access-control-expose-headers") exposed_headers
            (allow_origin origin resp))

  abbrev pub preflight_answer :
      CorsPolicy → Message (api.Map) → Text → Option Text → Option (Message (api.Map))
  preflight_answer policy msg origin none = none
  preflight_answer policy msg origin (some requested_method) = some (
      allow_credentials (is_trusted policy origin) (
        set_header api (lit "access-control-max-age") (lit "86400") (
          set_header api (lit "access-control-allow-headers")
            (unwrap_or (header api (lit "access-control-request-headers") msg)
              default_allow_headers)
            (set_header api (lit "access-control-allow-methods") requested_method
              (allow_origin origin (response api msg 204 none))))))

  unfoldable pub preflight :
      CorsPolicy → Message (api.Map) → Text → Option Text → Option (Message (api.Map))
  preflight policy msg origin request_host =
      if is_same_origin origin request_host || not (is_allowed policy origin)
      then none
      else preflight_answer policy msg origin (header api (lit "access-control-request-method") msg)

  abbrev pub csrf_error : Text → RsError
  csrf_error origin = forbidden (
      lit "cookie-authenticated cross-origin request from untrusted origin '"
      ++ (origin ++ lit "' (add it to cors.trustedOrigins, or use a bearer token)"))

  unfoldable pub check_ambient_csrf :
      CorsPolicy → Message (api.Map) → Text → Option Text → Bool → Result (Unit {0})
  check_ambient_csrf policy msg origin request_host ambient_credential =
      if is_same_origin origin request_host || is_trusted policy origin
      then ok tt
      else if (not (is_safe msg.method) || is_websocket_upgrade msg) && ambient_credential
      then err (csrf_error origin)
      else ok tt
