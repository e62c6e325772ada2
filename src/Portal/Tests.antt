-- ===== src/Portal/Tests.antt =====
-- Runs of the authorization middleware, and instances of its theorems.
use opendif_core.Base.{
  List, String, [], insert, is_not_colon, join_colon, lookup, none, refl, some, true, ◌↔◌, ◌∷◌, ◌≡◌,
  ◌⊎◌,
}
use opendif_core.Portal.Access.{
  AuthenticatedUser, authorize_request, authorize_user, can_access_resource, continues,
  exact_matches, find_endpoint_permission, find_wildcard, forbidden_403, get_primary_role,
  handle_undefined_endpoint, has_any_role, is_member, matches_endpoint, role_has_permission,
  roles_have_permission, should_skip_authorization, wildcard_matches,
}
use opendif_core.Portal.Endpoints.{IsFor, find_endpoint_permission-IsFor}
use opendif_core.Portal.Granting.{
  HasRoleFor, IsLetIn, authorize_request_iff, can_access_resource_iff,
}
use opendif_core.Portal.Roles.{
  endpoint, endpoint_permissions, mode_fail_closed, mode_fail_open_admin_system, role_admin,
  role_member, role_system,
}

abbrev with_roles : List String → AuthenticatedUser
with_roles roles = record { idp_user_id = "u1"; roles = roles }

service : Unit {0}
unfolding authorize_request authorize_user find_endpoint_permission find_wildcard wildcard_matches
    exact_matches matches_endpoint should_skip_authorization handle_undefined_endpoint
    roles_have_permission role_has_permission can_access_resource get_primary_role has_any_role
    lookup insert join_colon
service = tt

member_reads_test :
    authorize_request mode_fail_closed "GET" "/api/v1/schemas/s1"
      (some (with_roles (role_member ∷ [])))
    ≡ continues
unfolding service
member_reads_test = refl

member_deletes_test :
    authorize_request mode_fail_closed "DELETE" "/api/v1/schemas/s1"
      (some (with_roles (role_member ∷ [])))
    ≡ forbidden_403 "Insufficient permissions"
unfolding service
member_deletes_test = refl

undefined_test :
    authorize_request mode_fail_open_admin_system "GET" "/api/v1/other"
      (some (with_roles (role_system ∷ [])))
    ≡ continues
unfolding service
undefined_test = refl

health_test : authorize_request mode_fail_closed "GET" "/health" none ≡ continues
unfolding service
health_test = refl

primary_role_test : get_primary_role (with_roles (role_member ∷ role_system ∷ [])) ≡ role_system
unfolding service
primary_role_test = refl

any_role_test : has_any_role (with_roles (role_member ∷ [])) (role_admin ∷ role_member ∷ []) ≡ true
unfolding service
any_role_test = refl

authorize_request_iff_example :
    (authorize_request mode_fail_closed "GET" "/api/v1/schemas/s1"
        (some (with_roles (role_member ∷ [])))
      ≡ continues)
    ↔ IsLetIn mode_fail_closed "GET" "/api/v1/schemas/s1" (some (with_roles (role_member ∷ [])))
authorize_request_iff_example =
    authorize_request_iff mode_fail_closed "GET" "/api/v1/schemas/s1"
      (some (with_roles (role_member ∷ [])))

can_access_resource_iff_example :
    (can_access_resource (with_roles (role_member ∷ [])) "schema:update" "u1" ≡ true) ↔ (
      (is_member (with_roles (role_member ∷ [])) ≡ true)
      × HasRoleFor (role_member ∷ []) "schema:update"
      × (◌≡◌ {A = String} "u1" "" ⊎ ◌≡◌ {A = String} "u1" "u1"))
can_access_resource_iff_example =
    can_access_resource_iff (with_roles (role_member ∷ [])) "schema:update" "u1" refl refl

find_endpoint_permission-IsFor_example :
    IsFor "PUT" "/api/v1/members/m1"
      (endpoint "PUT" "/api/v1/members/*" "member:update" true)
      endpoint_permissions
unfolding service
find_endpoint_permission-IsFor_example =
    find_endpoint_permission-IsFor "PUT" "/api/v1/members/m1"
      (is_not_colon "P" refl, (is_not_colon "U" refl, (is_not_colon "T" refl, tt))) refl
