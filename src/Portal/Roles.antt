-- ===== src/Portal/Roles.antt =====
-- The roles, the permissions and the endpoints: portal-backend/v1/models/authorization.go.
-- Role and Permission are named string types.
use opendif_core.Base.{Bool, Dict, List, String, [], false, true, ◌∷◌}

abbrev pub mode_fail_closed : String
mode_fail_closed = "fail_closed"

abbrev pub mode_fail_open_admin_system : String
mode_fail_open_admin_system = "fail_open_admin_system"

abbrev pub mode_fail_open_admin : String
mode_fail_open_admin = "fail_open_admin"

abbrev pub role_admin : String
role_admin = "OpenDIF_Admin"

abbrev pub role_member : String
role_member = "OpenDIF_Member"

abbrev pub role_system : String
role_system = "OpenDIF_System"

abbrev pub role_admin_permissions : List String
role_admin_permissions =
    "schema:create" ∷ "schema:read" ∷ "schema:update" ∷ "schema:delete" ∷ "schema:read:all"
    ∷ "schema_submission:create" ∷ "schema_submission:read" ∷ "schema_submission:update"
    ∷ "schema_submission:delete" ∷ "schema_submission:read:all" ∷ "schema_submission:approve"
    ∷ "application:create" ∷ "application:read" ∷ "application:update" ∷ "application:delete"
    ∷ "application:read:all" ∷ "application_submission:create" ∷ "application_submission:read"
    ∷ "application_submission:update" ∷ "application_submission:delete"
    ∷ "application_submission:read:all" ∷ "application_submission:approve" ∷ "member:create"
    ∷ "member:read" ∷ "member:update" ∷ "member:delete" ∷ "member:read:all" ∷ []

abbrev pub role_member_permissions : List String
role_member_permissions =
    "schema:create" ∷ "schema:read" ∷ "schema:update" ∷ "schema_submission:create"
    ∷ "schema_submission:read" ∷ "schema_submission:update" ∷ "application:create"
    ∷ "application:read" ∷ "application:update" ∷ "application_submission:create"
    ∷ "application_submission:read" ∷ "application_submission:update" ∷ "member:read"
    ∷ "member:update" ∷ []

abbrev pub role_system_permissions : List String
role_system_permissions =
    "schema:read" ∷ "schema:read:all" ∷ "schema_submission:read" ∷ "schema_submission:read:all"
    ∷ "application:read" ∷ "application:read:all" ∷ "application_submission:read"
    ∷ "application_submission:read:all" ∷ "member:read" ∷ "member:read:all" ∷ []

abbrev pub role_permissions : Dict (List String)
role_permissions =
    (role_admin, role_admin_permissions)
    ∷ (role_member, role_member_permissions)
    ∷ (role_system, role_system_permissions)
    ∷ []

pub record EndpointPermission : Type 0 where
  pub method : String
  pub path : String
  pub permission : String
  pub is_ownership_required : Bool

abbrev pub endpoint : String → String → String → Bool → EndpointPermission
endpoint method path permission is_ownership_required = record {
  method = method;
  path = path;
  permission = permission;
  is_ownership_required = is_ownership_required;
}

abbrev pub endpoint_permissions : List EndpointPermission
endpoint_permissions =
    endpoint "GET" "/api/v1/schemas" "schema:read" false
    ∷ endpoint "POST" "/api/v1/schemas" "schema:create" false
    ∷ endpoint "GET" "/api/v1/schemas/*" "schema:read" true
    ∷ endpoint "PUT" "/api/v1/schemas/*" "schema:update" true
    ∷ endpoint "DELETE" "/api/v1/schemas/*" "schema:delete" true
    ∷ endpoint "GET" "/api/v1/schema-submissions" "schema_submission:read" false
    ∷ endpoint "POST" "/api/v1/schema-submissions" "schema_submission:create" false
    ∷ endpoint "GET" "/api/v1/schema-submissions/*" "schema_submission:read" true
    ∷ endpoint "PUT" "/api/v1/schema-submissions/*" "schema_submission:update" true
    ∷ endpoint "GET" "/api/v1/applications" "application:read" false
    ∷ endpoint "POST" "/api/v1/applications" "application:create" false
    ∷ endpoint "GET" "/api/v1/applications/*" "application:read" true
    ∷ endpoint "PUT" "/api/v1/applications/*" "application:update" true
    ∷ endpoint "DELETE" "/api/v1/applications/*" "application:delete" true
    ∷ endpoint "GET" "/api/v1/application-submissions" "application_submission:read" false
    ∷ endpoint "POST" "/api/v1/application-submissions" "application_submission:create" false
    ∷ endpoint "GET" "/api/v1/application-submissions/*" "application_submission:read" true
    ∷ endpoint "PUT" "/api/v1/application-submissions/*" "application_submission:update" true
    ∷ endpoint "GET" "/api/v1/members" "member:read" false
    ∷ endpoint "POST" "/api/v1/members" "member:create" false
    ∷ endpoint "GET" "/api/v1/members/*" "member:read" true
    ∷ endpoint "PUT" "/api/v1/members/*" "member:update" true
    ∷ []
