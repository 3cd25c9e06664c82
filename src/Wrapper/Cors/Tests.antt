-- ===== src/Wrapper/Cors/Tests.antt =====
-- A policy with a wildcard and a trusted origin, and the theorems at it.
use rs2_runtime.Common.{◌≡◌, ◌↔◌, ◌⊎◌, refl, true, false, none, some, List, [], ◌∷◌}
use rs2_runtime.Common.Text.{Text, lit, texts}
use rs2_runtime.Error.{err}
use rs2_runtime.Message.{Message, post, external, header}
use rs2_runtime.Message.Headers.{header_list}
use rs2_runtime.Wrapper.Vary.{append_header_value, has_item}
use rs2_runtime.Wrapper.Cors.{
  CorsPolicy, after_once, host_port_of, host_of, origin_matches, is_same_origin, is_trusted,
  is_allowed, is_websocket_upgrade, decorate, csrf_error, check_ambient_csrf,
}
use rs2_runtime.Wrapper.Cors.Credentials.{
  MayChange, IsOwnHost, IsTrustedOrigin, IsUpgrade, decorate_credentials_iff,
  check_ambient_csrf_iff,
}

abbrev policy : CorsPolicy
policy = record {
  trusted_origins = lit "https://app.acme.io" ∷ [];
  allowed_origins = lit "*.acme.io" ∷ [];
}

abbrev request : Message (List (Text × Text))
request = record {
  method = post;
  url = record { path = lit "/data"; query = []; base_path = []; service_path = [] };
  headers = (lit "vary", lit "accept") ∷ [];
  status = none;
  body = none;
  tenant = lit "acme";
  principal = none;
  source = external;
  name = none;
  depth = 0;
}

unfoldable cors : Unit {0}
unfolding texts append_header_value has_item after_once host_port_of host_of origin_matches
    is_same_origin is_trusted is_allowed is_websocket_upgrade decorate check_ambient_csrf
cors = tt

sub_domain_matches : origin_matches (lit "*.Acme.io") (lit "https://shop.acme.io:8080") ≡ true
unfolding cors
sub_domain_matches = refl

look_alike : origin_matches (lit "*.acme.io") (lit "https://evil-acme.io") ≡ false
unfolding cors
look_alike = refl

varies :
    header header_list
      (lit "vary")
      (decorate header_list policy request (lit "https://app.acme.io") none)
    ≡ some (lit "accept, origin")
unfolding cors
varies = refl

decorate_credentials_iff_example :
    (header header_list
        (lit "access-control-allow-credentials")
        (decorate header_list policy request (lit "https://app.acme.io") none)
      ≡ some (lit "true"))
    ↔ ((is_same_origin (lit "https://app.acme.io") none ≡ false)
        × (is_trusted policy (lit "https://app.acme.io") ≡ true))
decorate_credentials_iff_example =
    decorate_credentials_iff header_list policy (lit "https://app.acme.io") none request refl
      (unfold texts in refl)

check_ambient_csrf_iff_example :
    (check_ambient_csrf header_list policy request (lit "https://evil.io") none true
      ≡ err (csrf_error header_list (lit "https://evil.io")))
    ↔ ((IsOwnHost header_list policy (lit "https://evil.io") none → ⊥)
        × (IsTrustedOrigin header_list policy (lit "https://evil.io") none → ⊥)
        × (MayChange post ⊎ IsUpgrade header_list policy (lit "https://evil.io") none request)
        × (true ≡ true)
        × (csrf_error header_list (lit "https://evil.io")
            ≡ csrf_error header_list (lit "https://evil.io")))
check_ambient_csrf_iff_example =
    check_ambient_csrf_iff header_list policy (lit "https://evil.io") none request true
      (csrf_error header_list (lit "https://evil.io"))
