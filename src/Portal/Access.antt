-- ===== src/Portal/Access.antt =====
-- The tests of a user's roles and the authorization middleware:
-- portal-backend/v1/models/authorization.go and authentication.go, v1/utils/auth_utils.go,
-- v1/middleware/authorization.go.
use Prim.Native.String.{len, slice}
use text.Mathlib.Text.{starts_with, find?}
use opendif_core.Base.{
  Bool, Dict, List, Option, String, [], elem, false, if◌then◌else◌, insert, is_nil, join_colon, leb,
  lookup, none, not, some, true, ◌&&◌, ◌-◌, ◌==◌, ◌||◌, ◌∷◌,
}
use opendif_core.Portal.Roles.{
  EndpointPermission, endpoint_permissions, mode_fail_closed, mode_fail_open_admin,
  mode_fail_open_admin_system, role_admin, role_member, role_permissions, role_system,
}

-- Role.HasPermission
unfoldable pub role_has_permission : String → String → Bool
role_has_permission role permission = elim (lookup role role_permissions) [
  | none ↦ false
  | some permissions ↦ elem permission permissions
]

-- what the tests read of a user
pub record AuthenticatedUser : Type 0 where
  pub idp_user_id : String
  pub roles : List String

abbrev pub has_role : AuthenticatedUser → String → Bool
has_role user role = elem role user.roles

unfoldable pub has_any_role : AuthenticatedUser → List String → Bool
has_any_role user [] = false
has_any_role user (role ∷ roles) = has_role user role || has_any_role user roles

unfoldable pub roles_have_permission : List String → String → Bool
roles_have_permission [] permission = false
roles_have_permission (role ∷ roles) permission =
    role_has_permission role permission || roles_have_permission roles permission

-- AuthenticatedUser.HasPermission
abbrev pub has_permission : AuthenticatedUser → String → Bool
has_permission user permission = roles_have_permission user.roles permission

abbrev pub is_admin : AuthenticatedUser → Bool
is_admin user = has_role user role_admin

abbrev pub is_member : AuthenticatedUser → Bool
is_member user = has_role user role_member

abbrev pub is_system : AuthenticatedUser → Bool
is_system user = has_role user role_system

unfoldable pub get_primary_role : AuthenticatedUser → String
get_primary_role user =
    if is_admin user then role_admin else if is_system user then role_system else role_member

abbrev pub is_owner : AuthenticatedUser → String → Bool
is_owner user resource_owner = user.idp_user_id == resource_owner

abbrev pub is_owner_or_admin : AuthenticatedUser → String → Bool
is_owner_or_admin user resource_owner = is_admin user || is_owner user resource_owner

unfoldable pub can_access_resource : AuthenticatedUser → String → String → Bool
can_access_resource user permission resource_owner =
    if is_admin user
    then has_permission user permission
    else if is_system user
    then has_permission user permission
    else if is_member user
    then if not (has_permission user permission)
      then false
      else if not (resource_owner == "")
      then is_owner user resource_owner
      else true
    else false

-- strings.HasSuffix for the suffix "*"
abbrev pub ends_with_star : String → Bool
ends_with_star s = leb 1 (len s) && slice s (len s - 1) (len s) == "*"

-- strings.Contains for "*"
abbrev pub contains_star : String → Bool
contains_star s = not (is_nil (find? s "*"))

unfoldable pub matches_endpoint : (request_path endpoint_pattern : String) → Bool
matches_endpoint request_path endpoint_pattern =
    if endpoint_pattern == request_path
    then true
    else if ends_with_star endpoint_pattern
    then starts_with request_path (slice endpoint_pattern 0 (len endpoint_pattern - 1))
    else false

-- the map and the list that initializeEndpointCache builds
unfoldable pub exact_matches :
    List EndpointPermission → Dict EndpointPermission → Dict EndpointPermission
exact_matches [] m = m
exact_matches (ep ∷ eps) m =
    exact_matches eps
      (if contains_star ep.path then m else insert (join_colon ep.method ep.path) ep m)

unfoldable pub wildcard_matches : List EndpointPermission → List EndpointPermission
wildcard_matches [] = []
wildcard_matches (ep ∷ eps) =
    let rest = wildcard_matches eps in if contains_star ep.path then ep ∷ rest else rest

unfoldable pub find_wildcard :
    (method path : String) → List EndpointPermission → Option EndpointPermission
find_wildcard method path [] = none
find_wildcard method path (ep ∷ eps) =
    if ep.method == method && matches_endpoint path ep.path
    then some ep
    else find_wildcard method path eps

unfoldable pub find_endpoint_permission : (method path : String) → Option EndpointPermission
find_endpoint_permission method path =
    elim (lookup (join_colon method path) (exact_matches endpoint_permissions [])) [
      | some ep ↦ some ep
      | none ↦ find_wildcard method path (wildcard_matches endpoint_permissions)
    ]

pub data Verdict : Type 0 where
  continues : Verdict
  unauthorized_401 forbidden_403 : String → Verdict

unfoldable pub handle_undefined_endpoint : String → AuthenticatedUser → Verdict
handle_undefined_endpoint mode user =
    if mode == mode_fail_closed
    then forbidden_403 "Endpoint access not explicitly permitted"
    else if mode == mode_fail_open_admin
    then if is_admin user then continues else forbidden_403 "Administrative access required"
    else if mode == mode_fail_open_admin_system
    then if is_admin user || is_system user
      then continues
      else forbidden_403 "Administrative or system access required"
    else forbidden_403 "Access denied"

unfoldable pub should_skip_authorization : String → Bool
should_skip_authorization path =
    starts_with path "/health"
    || (starts_with path "/debug"
        || (starts_with path "/openapi.yaml" || starts_with path "/favicon.ico"))

-- AuthorizeRequest, for an authenticated user
unfoldable pub authorize_user : String → String → String → AuthenticatedUser → Verdict
authorize_user mode method path user = elim (find_endpoint_permission method path) [
  | none ↦ handle_undefined_endpoint mode user
  | some ep ↦
      if not (has_permission user ep.permission)
      then forbidden_403 "Insufficient permissions"
      else continues
]

-- AuthorizeRequest; `none` is a request with no authenticated user
unfoldable pub authorize_request : String → String → String → Option AuthenticatedUser → Verdict
authorize_request mode method path user =
    if should_skip_authorization path then continues else elim user [
      | none ↦ unauthorized_401 "Authentication required"
      | some u ↦ authorize_user mode method path u
    ]
