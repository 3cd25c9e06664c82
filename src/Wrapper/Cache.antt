-- ===== src/Wrapper/Cache.antt =====
-- `CachePolicy` of rs2-core/src/wrapper/mod.rs.
pub mod Shared
mod Tests
use rs2_runtime.Common.{
  ℕ, zero, suc, ◌+◌, ◌/◌, ◌%◌, Bool, true, false, ◌&&◌, ◌||◌, not, Option, none, some, List, [],
  ◌∷◌, ◌++◌, ltb, is_some, if◌then◌else◌,
}
use rs2_runtime.Common.Text.{Text, lit, text_eq}
use rs2_runtime.Common.Text.Decimal.{decimal}
use rs2_runtime.Json.{Value, string, object, lookup, opt_str, unwrap_or}
use rs2_runtime.Json
use rs2_runtime.Message.{Message, HeaderApi, header, set_header}
use rs2_runtime.Wrapper.Vary.{append_header_value}

pub data CacheMode : Type 0 where
  no_store revalidate cache : CacheMode

pub record CachePolicy : Type 0 where
  pub mode : CacheMode
  pub max_age_seconds : ℕ
  pub public : Bool
  pub immutable : Bool

abbrev pub default_policy : CachePolicy
default_policy = record { mode = no_store; max_age_seconds = 0; public = false; immutable = false }

abbrev pub open_access : Option Value → Bool
open_access none = true
open_access (some (string s)) = text_eq s (lit "open")
open_access (some (object spec)) =
    text_eq (unwrap_or (opt_str (lookup (lit "read") spec)) (lit "all")) (lit "all")
open_access (some _) = false

unfoldable pub mount_is_openly_readable : Value → Bool
mount_is_openly_readable mount_config = open_access (Json.get (lit "access") mount_config)

abbrev pub immutable_text : Bool → Text
immutable_text true = lit ", immutable"
immutable_text false = []

abbrev pub control : CachePolicy → CacheMode → Text → Text
control policy no_store scope = lit "no-store"
control policy revalidate scope = scope ++ lit ", no-cache"
control policy cache scope =
    scope
    ++ (lit ", max-age=" ++ (decimal policy.max_age_seconds ++ immutable_text policy.immutable))

abbrev pub stores : CacheMode → Bool
stores no_store = false
stores _ = true

module _ (api : HeaderApi) where
  abbrev pub vary : Bool → Message (api.Map) → Message (api.Map)
  vary by_caller resp =
      if by_caller
      then append_header_value api resp (lit "vary") (lit "authorization, cookie")
      else resp

  unfoldable pub apply : CachePolicy → Message (api.Map) → Bool → Message (api.Map)
  apply policy resp openly_readable =
      let clamped = policy.public && not openly_readable in
      let scope = if policy.public && not clamped then lit "public" else lit "private" in
      if is_some (header api (lit "cache-control") resp)
        || api.contains_key (lit "set-cookie") resp.headers
      then resp
      else vary ((clamped || not policy.public) && stores policy.mode)
          (set_header api (lit "cache-control") (control policy policy.mode scope) resp)
