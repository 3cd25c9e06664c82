-- ===== src/Outbound/Tests.antt =====
-- URLs and grants to run, and the theorem at them.
use rs2_runtime.Common.{◌≡◌, refl, true, some, [], ◌∷◌}
use rs2_runtime.Common.Text.{Text, lit, texts}
use rs2_runtime.Crypto.{panic, returned}
use rs2_runtime.Error.{ok}
use rs2_runtime.PathPattern.Parse.{split_str}
use rs2_runtime.Outbound.{
  ExternalDispatch, allows, slice_to, lower_starts, is_external_url, before, url_host, host_matches,
  position, authorize,
}
use rs2_runtime.Outbound.Allowed.{IsFirst, authorize-IsFirst}

unfoldable all_of : Unit {0}
unfolding texts split_str slice_to lower_starts is_external_url before url_host host_matches
    position authorize
all_of = tt

external_is_seen : is_external_url (lit "HTTPS://a.io/x") ≡ returned true
unfolding all_of
external_is_seen = refl

-- The seventh byte of the URL is inside a character.
slice_panics : is_external_url (lit "/orderé") ≡ panic
unfolding all_of
slice_panics = refl

host_of_url : url_host (lit "https://me@API.x.com:8443/v1?q") ≡ some (lit "api.x.com")
unfolding all_of
host_of_url = refl

abbrev dispatch : ExternalDispatch
dispatch = record {
  has_http = true;
  grants =
      record { grant_name = lit "a"; hosts = lit "a.io" ∷ [] }
      ∷ record { grant_name = lit "b"; hosts = lit "*.x.com" ∷ [] }
      ∷ [];
}

second_allows : authorize dispatch (lit "https://api.x.com/v1") ≡ ok 1
unfolding all_of
second_allows = refl

authorize-IsFirst_example :
    (dispatch.has_http ≡ true)
    × ((host : Text) × (url_host (lit "https://api.x.com/v1") ≡ some host)
        × IsFirst (allows host) dispatch.grants 1)
authorize-IsFirst_example = authorize-IsFirst dispatch (lit "https://api.x.com/v1") 1 second_allows
