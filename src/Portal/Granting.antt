-- ===== src/Portal/Granting.antt =====
-- Whom the authorization middleware lets in.
use opendif_core.Base.{
  Bool-cases, List, Option, Option-cases, String, [], arith, elem, eq_iff, eq_refl, false, inl, inr,
  none, refl, some, true, ◌==◌, ◌↔◌, ◌∷◌, ◌≡◌, ◌⊎◌,
}
use opendif_core.Portal.Access.{
  AuthenticatedUser, Verdict, authorize_request, authorize_user, can_access_resource, continues,
  find_endpoint_permission, handle_undefined_endpoint, has_permission, is_admin, is_member,
  is_system, role_has_permission, roles_have_permission, should_skip_authorization,
  unauthorized_401,
}
use opendif_core.Portal.Roles.{
  EndpointPermission, mode_fail_closed, mode_fail_open_admin, mode_fail_open_admin_system,
}

-- One of the roles has the permission.
abbrev pub HasRoleFor : List String → String → Type 0
HasRoleFor roles permission =
    (role : String) × (elem role roles ≡ true) × (role_has_permission role permission ≡ true)

roles_have_permission_sound :
    (roles : List String) (permission : String)
    → roles_have_permission roles permission ≡ true
    → HasRoleFor roles permission
unfolding roles_have_permission
roles_have_permission_sound [] permission h = absurd (ground arith)
roles_have_permission_sound (r ∷ rs) permission h =
    elim (Bool-cases (role_has_permission r permission)) [
      | inl e ↦ (r, rw eq_refl refl, e)
      | inr e ↦
          let (role, held, has) = roles_have_permission_sound rs permission (ground arith) in
          (role, ground arith, has)
    ]

roles_have_permission_complete :
    (roles : List String) (permission role : String)
    → elem role roles ≡ true
    → role_has_permission role permission ≡ true
    → roles_have_permission roles permission ≡ true
unfolding roles_have_permission
roles_have_permission_complete [] permission role held has = absurd (ground arith)
roles_have_permission_complete (r ∷ rs) permission role held has = elim (Bool-cases (r == role)) [
  | inl e ↦
      let same : r ≡ role = (eq_iff _ _).0 e in
      let here_too : role_has_permission r permission ≡ true = rw same has in ground arith
  | inr e ↦
      let later = roles_have_permission_complete rs permission role (ground arith) has in
      ground arith
]

-- The mode lets the user in where no permission is declared for the endpoint.
abbrev pub IsOpenTo : String → AuthenticatedUser → Type 0
IsOpenTo mode user =
    ((mode ≡ mode_fail_open_admin) × (is_admin user ≡ true))
    ⊎ ((mode ≡ mode_fail_open_admin_system) × ((is_admin user ≡ true) ⊎ (is_system user ≡ true)))

-- Why a request goes on: its path is exempt, a role of the user has the permission that is declared
-- for the endpoint, or none is declared and the mode is open to the user.
pub data IsLetIn (mode method path : String) : Option AuthenticatedUser → Type 0 where
  exempt :
      {user : Option AuthenticatedUser}
      → should_skip_authorization path ≡ true
      → IsLetIn mode method path user
  by_role :
      {u : AuthenticatedUser} (ep : EndpointPermission)
      → find_endpoint_permission method path ≡ some ep
      → HasRoleFor u.roles ep.permission
      → IsLetIn mode method path (some u)
  by_mode :
      {u : AuthenticatedUser}
      → find_endpoint_permission method path ≡ none
      → IsOpenTo mode u
      → IsLetIn mode method path (some u)

handle_undefined_endpoint_sound :
    (mode : String) (u : AuthenticatedUser)
    → handle_undefined_endpoint mode u ≡ continues
    → IsOpenTo mode u
unfolding handle_undefined_endpoint
handle_undefined_endpoint_sound mode u h = elim (Bool-cases (mode == mode_fail_closed)) [
  | inl a ↦ absurd (ground arith)
  | inr a ↦ elim (Bool-cases (mode == mode_fail_open_admin)) [
    | inl b ↦ elim (Bool-cases (is_admin u)) [
      | inl c ↦ inl ((eq_iff _ _).0 b, c)
      | inr c ↦ absurd (ground arith)
    ]
    | inr b ↦ elim (Bool-cases (mode == mode_fail_open_admin_system)) [
      | inl c ↦ elim (Bool-cases (is_admin u)) [
        | inl d ↦ inr ((eq_iff _ _).0 c, inl d)
        | inr d ↦ elim (Bool-cases (is_system u)) [
          | inl e ↦ inr ((eq_iff _ _).0 c, inr e)
          | inr e ↦ absurd (ground arith)
        ]
      ]
      | inr c ↦ absurd (ground arith)
    ]
  ]
]

handle_undefined_endpoint_complete :
    (mode : String) (u : AuthenticatedUser)
    → IsOpenTo mode u
    → handle_undefined_endpoint mode u ≡ continues
unfolding handle_undefined_endpoint
handle_undefined_endpoint_complete mode u (inl (m, a)) = rw m (simp a)
handle_undefined_endpoint_complete mode u (inr (m, inl a)) = rw m (simp a)
handle_undefined_endpoint_complete mode u (inr (m, inr s)) =
    rw m (elim (Bool-cases (is_admin u)) [ inl a ↦ simp a | inr a ↦ simp (a, s) ])

module _ (mode method path : String) where
  authorize_user_sound :
      (u : AuthenticatedUser)
      → authorize_user mode method path u ≡ continues
      → IsLetIn mode method path (some u)
  unfolding authorize_user
  authorize_user_sound u h = elim (Option-cases (find_endpoint_permission method path)) [
    | inl e ↦ by_mode e (handle_undefined_endpoint_sound mode u (rw (e, authorize_user) at h))
    | inr (ep, e) ↦ elim (Bool-cases (has_permission u ep.permission)) [
      | inl p ↦ by_role ep e (roles_have_permission_sound u.roles ep.permission p)
      | inr p ↦ absurd (ground (arith, (rw (e, authorize_user) at h)))
    ]
  ]

  authorize_request_sound :
      (user : Option AuthenticatedUser)
      → authorize_request mode method path user ≡ continues
      → IsLetIn mode method path user
  unfolding authorize_request
  authorize_request_sound user h = elim (Bool-cases (should_skip_authorization path)) [
    | inl e ↦ exempt e
    | inr e ↦ split user (rw (e, authorize_request) at h)
  ]
    where
      split :
          (o : Option AuthenticatedUser)
          → (elim o as (λ x. Verdict) [
            | none ↦ unauthorized_401 "Authentication required"
            | some u ↦ authorize_user mode method path u
          ])
            ≡ continues
          → IsLetIn mode method path o
      split none k = absurd (ground arith)
      split (some u) k = authorize_user_sound u k

  authorize_request_complete :
      (user : Option AuthenticatedUser)
      → IsLetIn mode method path user
      → authorize_request mode method path user ≡ continues
  unfolding authorize_request authorize_user
  authorize_request_complete user (exempt e) = simp e
  authorize_request_complete (some u) (by_role ep e (role, held, has)) =
      elim (Bool-cases (should_skip_authorization path)) [
        | inl s ↦ simp s
        | inr s ↦ simp s (
            rw (e, authorize_user)
              (simp (roles_have_permission_complete u.roles ep.permission role held has)))
      ]
  authorize_request_complete (some u) (by_mode e o) =
      elim (Bool-cases (should_skip_authorization path)) [
        | inl s ↦ simp s
        | inr s ↦ simp s (rw (e, authorize_user) (handle_undefined_endpoint_complete mode u o))
      ]

  -- The middleware passes a request on exactly where its path is exempt; or a permission is declared
  -- for the endpoint and a role of the user has it; or none is declared and the mode is the one that
  -- is open to administrators, or the one open to administrators and system users, and the user is
  -- such. Without a user, only an exempt path is passed on.
  pub authorize_request_iff :
      (user : Option AuthenticatedUser)
      → (authorize_request mode method path user ≡ continues) ↔ IsLetIn mode method path user
  authorize_request_iff user = (authorize_request_sound user, authorize_request_complete user)

-- A user who is neither an administrator nor a system user may access a resource exactly where the
-- user is a member, a role of the user has the permission, and the resource has no owner or the
-- user is its owner.
pub can_access_resource_iff :
    (u : AuthenticatedUser) (permission owner : String)
    → is_admin u ≡ false
    → is_system u ≡ false
    → (can_access_resource u permission owner ≡ true) ↔ (
        (is_member u ≡ true)
        × HasRoleFor u.roles permission
        × ((owner ≡ "") ⊎ (u.idp_user_id ≡ owner)))
unfolding can_access_resource
can_access_resource_iff u permission owner a s = (
  λ h. elim (Bool-cases (is_member u)) [
    | inl m ↦ elim (Bool-cases (has_permission u permission)) [
      | inl p ↦ (m, roles_have_permission_sound u.roles permission p, owned h m p)
      | inr p ↦ absurd (ground arith)
    ]
    | inr m ↦ absurd (ground arith)
  ],
  λ (m, (role, held, has), o).
      let p = roles_have_permission_complete u.roles permission role held has in
      elim o [
        | inl none_set ↦ ground (arith, eq_iff owner "")
        | inr own ↦ ground (arith, eq_iff u.idp_user_id owner)
      ],
)
  where
    owned :
        can_access_resource u permission owner ≡ true
        → is_member u ≡ true
        → has_permission u permission ≡ true
        → (owner ≡ "") ⊎ (u.idp_user_id ≡ owner)
    owned h m p = elim (Bool-cases (owner == "")) [
      | inl e ↦ inl ((eq_iff _ _).0 e)
      | inr e ↦ inr ((eq_iff _ _).0 (ground arith))
    ]
