-- ===== src/Wrapper/Access.antt =====
-- Authorization of rs2-core/src/wrapper/mod.rs: the action of a method, role specs and the access
-- config of a mount. A `HashMap` or header of the message plays no part.
pub mod Grants
pub mod Laws
mod Tests
use rs2_runtime.Common.{
  ℕ, ◌+◌, Bool, true, false, Option, none, some, List, [], ◌∷◌, ◌++◌, if◌then◌else◌, any, not,
  is_some, ◌&&◌, ◌||◌, ◌==◌,
}
use rs2_runtime.Common.Text.{Text, lit, text_eq, contains, starts_with, split_whitespace, replace}
use rs2_runtime.Json.{Value, string, object, Fields, end, field, lookup, as_str, opt_str, unwrap_or}
use rs2_runtime.Json
use rs2_runtime.Error.{Result, ok, err, RsError, unauthorized, forbidden, internal}
use rs2_runtime.Message.{
  Method, get, head, options, put, patch, delete, post, connect, trace, extension, Principal, shown,
  Source, external, system, Message,
}
use rs2_runtime.Message.Url.{service_segments}
use rs2_runtime.Router.{Mount}

-- The action that a method stands for.
unfoldable pub action_for : Method → Text
action_for get = lit "read"
action_for head = lit "read"
action_for options = lit "read"
action_for put = lit "write"
action_for patch = lit "write"
action_for delete = lit "delete"
action_for _ = lit "invoke"

unfoldable pub resolve_role : Fields → Text → Text
resolve_role spec action_key =
    let write = unwrap_or (opt_str (lookup (lit "write") spec)) (lit "A") in
    if text_eq action_key (lit "read")
    then unwrap_or (opt_str (lookup (lit "read") spec)) (lit "all")
    else if text_eq action_key (lit "delete")
    then unwrap_or (opt_str (lookup (lit "delete") spec)) write
    else if text_eq action_key (lit "invoke")
    then unwrap_or (opt_str (lookup (lit "invoke") spec)) write
    else write

-- The text claims of a principal put in for their placeholders, one after the other.
abbrev pub put_claim : Text → Text → Option Text → Text
put_claim name resolved none = resolved
put_claim name resolved (some s) = replace resolved (lit "{" ++ (name ++ lit "}")) s

unfoldable pub put_claims : Fields → Text → Text
put_claims end resolved = resolved
put_claims (field k v claims) resolved = put_claims claims (put_claim k resolved (as_str v))

unfoldable pub resolve_pattern : Option Principal → Text → Text
resolve_pattern none pattern = pattern
resolve_pattern (some p) pattern = put_claims p.extra (replace pattern (lit "{email}") p.id)

-- Whether the path is the resolved pattern or below it.
unfoldable pub covers : Text → Text → Bool
covers resolved path = text_eq path resolved || starts_with (resolved ++ lit "/") path

abbrev pub holds_role : Option Principal → Text → Bool
holds_role none role = false
holds_role (some p) role = contains p.roles role

unfoldable pub role_ok : Option Principal → Text → Bool
role_ok principal role =
    if text_eq role (lit "all")
    then true
    else if text_eq role (lit "authenticated")
    then is_some principal
    else holds_role principal role

-- The loop of `satisfies_role_spec` over the tokens: a role, and a pattern that scopes it if the next
-- token begins with a slash.
unfoldable pub satisfies : Option Principal → Text → List Text → Bool
satisfies principal path [] = false
satisfies principal path (role ∷ []) = role_ok principal role
satisfies principal path (role ∷ next ∷ tokens) =
    let scoped = satisfies principal path tokens in
    let plain = satisfies principal path (next ∷ tokens) in
    if starts_with (lit "/") next
    then (role_ok principal role && covers (resolve_pattern principal next) path) || scoped
    else role_ok principal role || plain

abbrev pub is_system : Source → Bool
is_system system = true
is_system _ = false

abbrev pub needs_login : Text
needs_login = lit "this mount requires authentication"

abbrev pub lacks_role : Text → Method → RsError
lacks_role role_spec method =
    forbidden
      (lit "principal lacks a role satisfying '" ++ (role_spec ++ (lit "' for " ++ shown method)))

abbrev pub no_policy : Text
no_policy = lit "this mount has no access policy configured"

abbrev pub begins_with_dot : List Text → Bool
begins_with_dot [] = false
begins_with_dot (s ∷ segments) = starts_with (lit ".") s

module _ {H : Type 0} where
  unfoldable pub satisfies_role_spec : Text → Message H → Bool
  satisfies_role_spec spec msg =
      satisfies msg.principal msg.url.service_path (split_whitespace spec)

  abbrev pub check_policy : Text → Message H → Result (Unit {0})
  check_policy s msg =
      if text_eq s (lit "open")
      then ok tt
      else if text_eq s (lit "authenticated")
      then (if is_some msg.principal then ok tt else err (unauthorized needs_login))
      else err (internal (lit "unknown access policy '" ++ (s ++ lit "'")))

  abbrev pub check_roles : Text → Message H → Result (Unit {0})
  check_roles role_spec msg =
      if satisfies_role_spec role_spec msg
      then ok tt
      else if is_some msg.principal
      then err (lacks_role role_spec msg.method)
      else err (unauthorized needs_login)

  abbrev pub check_value : Value → Text → Message H → Result (Unit {0})
  check_value (string s) action_key msg = check_policy s msg
  check_value (object spec) action_key msg = check_roles (resolve_role spec action_key) msg
  check_value _ action_key msg = err (internal (lit "invalid 'access' config"))

  unfoldable pub check_role_spec : Value → Text → Message H → Result (Unit {0})
  check_role_spec access action_key msg =
      if is_system msg.source then ok tt else check_value access action_key msg

  abbrev pub check_config : Option Value → Text → Message H → Result (Unit {0})
  check_config none action msg =
      if is_some msg.principal then err (forbidden no_policy) else err (unauthorized no_policy)
  check_config (some access) action msg = check_role_spec access action msg

  unfoldable pub check_mount_access : Message H → Mount → Text → Result (Unit {0})
  check_mount_access msg mount action =
      check_config (Json.get (lit "access") mount.config) action msg

  -- A pipeline mount guards its execution paths itself; its authoring paths are guarded here.
  unfoldable pub check_access : Message H → Mount → Result (Unit {0})
  check_access msg mount =
      if text_eq mount.service (lit "pipeline") && not (begins_with_dot (service_segments msg.url))
      then ok tt
      else check_mount_access msg mount (action_for msg.method)

-- `is_operator`.
abbrev pub operates : Option Principal → List Text → Bool
operates none roles = false
operates (some p) roles = any (contains p.roles) roles

unfoldable pub is_operator : Option Principal → Text → Bool
is_operator principal operator_roles = operates principal (split_whitespace operator_roles)
