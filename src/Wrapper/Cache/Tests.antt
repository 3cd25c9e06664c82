-- ===== src/Wrapper/Cache/Tests.antt =====
-- Cache policies on a response, and the theorems at them.
use rs2_runtime.Common.{◌≡◌, refl, true, false, none, some, List, [], ◌∷◌}
use rs2_runtime.Common.Text.{Text, lit, texts}
use rs2_runtime.Json.{Value, object, field, end, string, lookup}
use rs2_runtime.Json
use rs2_runtime.Message.{Message, get, external, header}
use rs2_runtime.Message.Headers.{header_list}
use rs2_runtime.Router.{Mount}
use rs2_runtime.Wrapper.Vary.{append_header_value, has_item}
use rs2_runtime.Wrapper.Cache.{CachePolicy, cache, apply, mount_is_openly_readable}
use rs2_runtime.Wrapper.Cache.Shared.{apply-IsShared}

abbrev hourly : CachePolicy
hourly = record { mode = cache; max_age_seconds = 3600; public = true; immutable = true }

abbrev plain : Message (List (Text × Text))
plain = record {
  method = get;
  url = record { path = lit "/a"; query = []; base_path = []; service_path = [] };
  headers = [];
  status = some 200;
  body = none;
  tenant = lit "acme";
  principal = none;
  source = external;
  name = none;
  depth = 0;
}

is_public :
    header header_list (lit "cache-control") (apply header_list hourly plain true)
    ≡ some (lit "public, max-age=3600, immutable")
unfolding texts apply append_header_value has_item
is_public = refl

is_clamped :
    (apply header_list hourly plain false).headers
    ≡ (lit "vary", lit "authorization, cookie")
      ∷ (lit "cache-control", lit "private, max-age=3600, immutable")
      ∷ []
unfolding texts apply append_header_value has_item
is_clamped = refl

apply-IsShared_example : (true ≡ true) × (true ≡ true)
apply-IsShared_example =
    apply-IsShared header_list hourly true plain (lit "public, max-age=3600, immutable") refl
      is_public (unfold texts in refl)

abbrev open_mount : Mount
open_mount = record {
  base_path = lit "/site";
  service = lit "file";
  config = object (field (lit "access") (object (field (lit "write") (string (lit "E")) end)) end);
}

open_is_readable : mount_is_openly_readable open_mount.config ≡ true
unfolding texts mount_is_openly_readable Json.get lookup
open_is_readable = refl
