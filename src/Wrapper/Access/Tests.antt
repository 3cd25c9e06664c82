-- ===== src/Wrapper/Access/Tests.antt =====
-- Requests to a mount with a role spec, and the theorems at them.
use rs2_runtime.Common.{◌≡◌, ◌↔◌, ◌⊎◌, refl, true, Option, none, some, [], ◌∷◌}
use rs2_runtime.Common.Text.{Text, lit, texts}
use rs2_runtime.Json
use rs2_runtime.Json.{Value, string, object, end, field}
use rs2_runtime.Error.{ok, err}
use rs2_runtime.Message.{Message, Method, put, Principal, external}
use rs2_runtime.Message.Url
use rs2_runtime.Router.{Mount}
use rs2_runtime.Wrapper.Access.{
  action_for, resolve_role, role_ok, covers, resolve_pattern, put_claims, satisfies,
  satisfies_role_spec, check_role_spec, check_mount_access, check_access, lacks_role,
}
use rs2_runtime.Wrapper.Access.Grants.{IsGranted, grants, satisfies_iff}
use rs2_runtime.Wrapper.Access.Laws.{
  IsExecution, AdmitsConfig, IsBroken, IsRefusal, check_access_iff, check_access-IsRefusal,
}

abbrev users : Mount
users = record {
  base_path = lit "/users";
  service = lit "data";
  config = object (
      field (lit "access")
        (object (
          field (lit "read") (string (lit "all"))
            (field (lit "write") (string (lit "A U /{email}")) end)))
        end);
}

abbrev ada : Principal
ada = record { id = lit "ada"; roles = lit "U" ∷ []; kind = lit "user"; extra = end }

abbrev request : Method → Text → Option Principal → Message (Unit {0})
request method path principal = record {
  method = method;
  url = record { path = path; query = []; base_path = []; service_path = path };
  headers = tt;
  status = none;
  body = none;
  tenant = lit "t1";
  principal = principal;
  source = external;
  name = none;
  depth = 0;
}

own_record : check_access (request put (lit "/ada/x") (some ada)) users ≡ ok tt
unfolding texts Json.get Url.segments action_for resolve_role role_ok covers resolve_pattern
    put_claims satisfies satisfies_role_spec check_role_spec check_mount_access check_access
own_record = refl

other_record :
    check_access (request put (lit "/adam") (some ada)) users
    ≡ err (lacks_role (lit "A U /{email}") put)
unfolding texts Json.get Url.segments action_for resolve_role role_ok covers resolve_pattern
    put_claims satisfies satisfies_role_spec check_role_spec check_mount_access check_access
other_record = refl

satisfies_iff_example :
    (satisfies (some ada) (lit "/x") (lit "U" ∷ []) ≡ true)
    ↔ IsGranted (some ada) (lit "/x") (grants (lit "U" ∷ []))
satisfies_iff_example = satisfies_iff (some ada) (lit "/x") (lit "U" ∷ [])

check_access_iff_example : (check_access (request put (lit "/ada/x") (some ada)) users ≡ ok tt) ↔ (
    IsExecution (request put (lit "/ada/x") (some ada)) users
    ⊎ AdmitsConfig
        (request put (lit "/ada/x") (some ada))
        (Json.get (lit "access") users.config)
        (action_for put))
check_access_iff_example = check_access_iff (request put (lit "/ada/x") (some ada)) users

check_access-IsRefusal_example :
    IsRefusal
      (IsBroken (Json.get (lit "access") users.config))
      (some ada)
      (lacks_role (lit "A U /{email}") put)
check_access-IsRefusal_example =
    check_access-IsRefusal (request put (lit "/adam") (some ada)) users
      (lacks_role (lit "A U /{email}") put) other_record
