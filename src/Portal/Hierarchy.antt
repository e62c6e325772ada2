-- ===== src/Portal/Hierarchy.antt =====
-- How the permissions of the roles relate.
use opendif_core.Base.{
  Bool, Bool-cases, List, Option, String, [], and_iff, arith, elem, eq_iff, false, inl, inr, lookup,
  none, refl, some, subst, true, ◌&&◌, ◌==◌, ◌∷◌, ◌≡◌,
}
use opendif_core.Portal.Access.{role_has_permission}
use opendif_core.Portal.Roles.{
  role_admin, role_admin_permissions, role_member, role_member_permissions, role_permissions,
  role_system, role_system_permissions,
}

abbrev is_within : List String → List String → Bool
is_within [] ys = true
is_within (x ∷ xs) ys = elem x ys && is_within xs ys

elem-is_within :
    (p : String) (xs ys : List String)
    → is_within xs ys ≡ true
    → elem p xs ≡ true
    → elem p ys ≡ true
elem-is_within p [] ys w h = absurd (ground arith)
elem-is_within p (x ∷ xs) ys w h = elim (Bool-cases (x == p)) [
  | inl e ↦ subst (λ q. elem q ys ≡ true) ((eq_iff _ _).0 e) ((and_iff _ _).0 w).0
  | inr e ↦ elem-is_within p xs ys ((and_iff _ _).0 w).1 (ground arith)
]

allowed_by :
    (permission : String) (o : Option (List String))
    → (elim o as (λ x. Bool) [ none ↦ false | some permissions ↦ elem permission permissions ])
      ≡ true
    → (permissions : List String) × (o ≡ some permissions) × (elem permission permissions ≡ true)
allowed_by permission none h = absurd (ground arith)
allowed_by permission (some permissions) h = (permissions, refl, h)

within_admin :
    (role : String) (permissions : List String)
    → lookup role role_permissions ≡ some permissions
    → is_within permissions role_admin_permissions ≡ true
unfolding lookup
within_admin role permissions h = elim (Bool-cases (role_admin == role)) [
  | inl a ↦ closed role_admin_permissions refl (rw a at h)
  | inr a ↦ elim (Bool-cases (role_member == role)) [
    | inl b ↦ closed role_member_permissions refl (rw (a, b) at h)
    | inr b ↦ elim (Bool-cases (role_system == role)) [
      | inl c ↦ closed role_system_permissions refl (rw (a, b, c) at h)
      | inr c ↦ let lost : none ≡ some permissions = rw (a, b, c) at h in absurd (ground arith)
    ]
  ]
]
  where
    closed :
        (xs : List String)
        → is_within xs role_admin_permissions ≡ true
        → some xs ≡ some permissions
        → is_within permissions role_admin_permissions ≡ true
    closed xs w e =
        let same : xs ≡ permissions = cc e in
        subst (λ ys. is_within ys role_admin_permissions ≡ true) same w

-- Whatever permission some role has, the administrator's role has it too.
pub role_admin_has_all :
    (role permission : String)
    → role_has_permission role permission ≡ true
    → role_has_permission role_admin permission ≡ true
unfolding role_has_permission lookup
role_admin_has_all role permission h =
    let (permissions, at_role, listed) = allowed_by permission (lookup role role_permissions) h in
    elem-is_within permission permissions role_admin_permissions
      (within_admin role permissions at_role) listed
