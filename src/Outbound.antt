-- ===== src/Outbound.antt =====
-- rs2-core/src/outbound.rs: which URLs leave the node, their hosts, and the grants that allow them. A slice
-- of a text by bytes panics where it cuts a character. The adapter and the injectors are left out.
pub mod Allowed
mod Tests
use rs2_runtime.Common.{
  ℕ, zero, suc, ◌-◌, Bool, true, false, Option, none, some, List, [], ◌∷◌, ◌++◌, reverse, leb, ltb,
  ◌==◌, any, ◌||◌, if◌then◌else◌,
}
use rs2_runtime.Common.Text.{
  Text, lit, byte_len, len_utf8, eq_ignore_ascii_case, is_empty, to_ascii_lowercase, text_eq,
  strip_prefix, ends_with, join,
}
use rs2_runtime.Crypto.{Outcome, panic, returned}
use rs2_runtime.Error.{Result, ok, err, ◌>>=◌, bad_request, capability_denied, engine_unavailable}
use rs2_runtime.PathPattern.Parse.{split_str}

abbrev prepended : ℕ → Outcome Text → Outcome Text
prepended c panic = panic
prepended c (returned s) = returned (c ∷ s)

-- `url[..n]`.
unfoldable pub slice_to : ℕ → Text → Outcome Text
unfolding len_utf8
slice_to n [] = if leb n 0 then returned [] else panic
slice_to n (c ∷ s) =
    let rest = slice_to (n - len_utf8 c) s in
    if leb n 0 then returned [] else if ltb n (len_utf8 c) then panic else prepended c rest

abbrev is_scheme : Text → Outcome Text → Outcome Bool
is_scheme prefix panic = panic
is_scheme prefix (returned head) = returned (eq_ignore_ascii_case head prefix)

unfoldable pub lower_starts : Text → Text → Outcome Bool
unfolding byte_len slice_to eq_ignore_ascii_case
lower_starts url prefix =
    if leb (byte_len prefix) (byte_len url)
    then is_scheme prefix (slice_to (byte_len prefix) url)
    else returned false

abbrev pub or_else : Outcome Bool → Outcome Bool → Outcome Bool
or_else panic later = panic
or_else (returned true) later = returned true
or_else (returned false) later = later

unfoldable pub is_external_url : Text → Outcome Bool
unfolding lower_starts
is_external_url url = or_else (lower_starts url (lit "http://")) (lower_starts url (lit "https://"))

-- The part of a text in front of the first such character.
unfoldable pub before : (ℕ → Bool) → Text → Text
before p [] = []
before p (c ∷ s) = let rest = before p s in if p c then [] else c ∷ rest

abbrev pub host_of : Text → Option Text
host_of host = if is_empty host then none else some (to_ascii_lowercase host)

-- The authority of an absolute URL, without its user and its port.
abbrev pub authority_host : Text → Text
unfolding before
authority_host rest =
    let authority = before (λ c. c == b'/' || (c == b'?' || c == b'#')) rest in
    before (λ c. c == b':') (reverse (before (λ c. c == b'@') (reverse authority)))

abbrev after_scheme : Option (Text × Text) → Option Text
after_scheme none = none
after_scheme (some (scheme, rest)) = host_of (authority_host rest)

unfoldable pub url_host : Text → Option Text
unfolding split_str to_ascii_lowercase
url_host url = after_scheme (split_str (lit "://") url)

abbrev matches_pattern : Text → Text → Option Text → Bool
matches_pattern pattern host none = text_eq host pattern
matches_pattern pattern host (some suffix) = text_eq host suffix || ends_with (b'.' ∷ suffix) host

unfoldable pub host_matches : Text → Text → Bool
unfolding to_ascii_lowercase strip_prefix ends_with text_eq
host_matches pattern host =
    let lower = to_ascii_lowercase pattern in
    matches_pattern lower host (strip_prefix (lit "*.") lower)

-- A grant without its injector.
pub record HostGrant : Type 0 where
  pub grant_name : Text
  pub hosts : List Text

-- `has_http` says whether there is an adapter.
pub record ExternalDispatch : Type 0 where
  pub has_http : Bool
  pub grants : List HostGrant

abbrev pub allows : Text → HostGrant → Bool
allows host g = any (λ p. host_matches p host) g.hosts

abbrev pub moved : Option ℕ → Option ℕ
moved none = none
moved (some i) = some (suc i)

-- `position`.
unfoldable pub position : (HostGrant → Bool) → List HostGrant → Option ℕ
position p [] = none
position p (g ∷ gs) = let later = position p gs in if p g then some 0 else moved later

abbrev allowed_hosts : List HostGrant → List Text
allowed_hosts [] = []
allowed_hosts (g ∷ gs) = g.hosts ++ allowed_hosts gs

abbrev pub needs_url : Text → Option Text → Result Text
needs_url url none =
    err (bad_request (lit "outbound call needs an absolute URL, got '" ++ (url ++ lit "'")))
needs_url url (some host) = ok host

abbrev pub granted : ExternalDispatch → Text → Option ℕ → Result ℕ
granted ext host none = err (
    capability_denied (
      lit "httpOut to '"
      ++ (host
          ++ (lit "' (this mount's httpOut grants allow: "
              ++ (join (lit ", ") (allowed_hosts ext.grants) ++ lit ")")))))
granted ext host (some g) =
    if ext.has_http
    then ok g
    else err (engine_unavailable (lit "this deployment has no outbound HTTP adapter configured"))

unfoldable pub authorize : ExternalDispatch → Text → Result ℕ
unfolding url_host host_matches position
authorize ext url =
    needs_url url (url_host url) >>= λ host. granted ext host (position (allows host) ext.grants)
