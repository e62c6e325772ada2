-- ===== src/Portal/Endpoints.antt =====
-- What the lookup of an endpoint's permission finds.
use opendif_core.Base.{
  All, All-mem, Bool-cases, Dict, HasNoColon, List, Memᴰ, Option-cases, String, [], and_iff, arith,
  eq_iff, if◌then◌else◌, inl, inr, insert, is_not_colon, join_colon, join_colon_injective, lookup,
  lookup-insert, refl, some, subst, sym, true, ◌&&◌, ◌==◌, ◌∷◌, ◌≡◌, ◌≢◌, ◌⊎◌,
}
use opendif_core.Portal.Access.{
  contains_star, exact_matches, find_endpoint_permission, find_wildcard, matches_endpoint,
  wildcard_matches,
}
use opendif_core.Portal.Roles.{EndpointPermission, endpoint_permissions}

-- The entry is one of the table, is for the method, and its pattern matches the path.
abbrev pub IsFor : (method path : String) → EndpointPermission → List EndpointPermission → Type 0
IsFor method path ep table =
    Memᴰ ep table × (ep.method ≡ method) × (matches_endpoint path ep.path ≡ true)

abbrev endpoint_key : EndpointPermission → String
endpoint_key ep = join_colon ep.method ep.path

exact_matches_sound :
    (k : String) (eps : List EndpointPermission) (m : Dict EndpointPermission)
    {ep : EndpointPermission}
    → lookup k (exact_matches eps m) ≡ some ep
    → (Memᴰ ep eps × (endpoint_key ep ≡ k)) ⊎ (lookup k m ≡ some ep)
unfolding exact_matches
exact_matches_sound k [] m h = inr h
exact_matches_sound k (e ∷ eps) m {ep} h = elim (Bool-cases (contains_star e.path)) [
  | inl star ↦ elim (exact_matches_sound k eps m (rw (star, exact_matches) at h)) [
    | inl (there, same) ↦ inl (Memᴰ.tail there, same)
    | inr before ↦ inr before
  ]
  | inr plain ↦
      elim (exact_matches_sound k eps (insert (endpoint_key e) e m)
        (rw (plain, exact_matches) at h)) [
          | inl (there, same) ↦ inl (Memᴰ.tail there, same)
          | inr before ↦ after_insert e (rw (lookup-insert (endpoint_key e) k e m) at before)
        ]
]
  where
    after_insert :
        (e : EndpointPermission)
        → (if endpoint_key e == k then some e else lookup k m) ≡ some ep
        → (Memᴰ ep (e ∷ eps) × (endpoint_key ep ≡ k)) ⊎ (lookup k m ≡ some ep)
    after_insert e q = elim (Bool-cases (endpoint_key e == k)) [
      | inl same ↦
          let at_ep : e ≡ ep = cc (rw same at q) in
          inl (Memᴰ.head (sym at_ep), subst (λ x. endpoint_key x ≡ k) at_ep ((eq_iff _ _).0 same))
      | inr other ↦ inr (rw other at q)
    ]

wildcard_matches_sound :
    (eps : List EndpointPermission) {ep : EndpointPermission}
    → Memᴰ ep (wildcard_matches eps)
    → Memᴰ ep eps
unfolding wildcard_matches
wildcard_matches_sound [] m = elim m [ ]
wildcard_matches_sound (e ∷ eps) {ep} m = elim (Bool-cases (contains_star e.path)) [
  | inl star ↦ split (wildcard_matches_sound eps) (rw (star, wildcard_matches) at m)
  | inr plain ↦ Memᴰ.tail (wildcard_matches_sound eps (rw (plain, wildcard_matches) at m))
]
  where
    split :
        (Memᴰ ep (wildcard_matches eps) → Memᴰ ep eps)
        → Memᴰ ep (e ∷ wildcard_matches eps)
        → Memᴰ ep (e ∷ eps)
    split later (Memᴰ.head same) = Memᴰ.head same
    split later (Memᴰ.tail there) = Memᴰ.tail (later there)

find_wildcard_sound :
    (method path : String) (eps : List EndpointPermission) {ep : EndpointPermission}
    → find_wildcard method path eps ≡ some ep
    → IsFor method path ep eps
unfolding find_wildcard
find_wildcard_sound method path [] h = absurd (ground arith)
find_wildcard_sound method path (e ∷ eps) {ep} h =
    elim (Bool-cases (e.method == method && matches_endpoint path e.path)) [
      | inl fits_it ↦
          let same : ep ≡ e = ground arith in
          let (a, b) = (and_iff _ _).0 fits_it in
          (Memᴰ.head same, rw same ((eq_iff _ _).0 a), rw same b)
      | inr differs ↦
          let (there, a, b) = find_wildcard_sound method path eps (ground arith) in
          (Memᴰ.tail there, a, b)
    ]

-- The methods of the table, of which none holds a colon.
data IsMethod : String → Type 0 where
  get_method : IsMethod "GET"
  post_method : IsMethod "POST"
  put_method : IsMethod "PUT"
  delete_method : IsMethod "DELETE"

IsMethod-HasNoColon : {s : String} → IsMethod s → HasNoColon s
IsMethod-HasNoColon get_method =
    (is_not_colon "G" refl, (is_not_colon "E" refl, (is_not_colon "T" refl, tt)))
IsMethod-HasNoColon post_method = (
  is_not_colon "P" refl,
  (is_not_colon "O" refl, (is_not_colon "S" refl, (is_not_colon "T" refl, tt))),
)
IsMethod-HasNoColon put_method =
    (is_not_colon "P" refl, (is_not_colon "U" refl, (is_not_colon "T" refl, tt)))
IsMethod-HasNoColon delete_method = (
  is_not_colon "D" refl,
  (
    is_not_colon "E" refl,
    (
      is_not_colon "L" refl,
      (is_not_colon "E" refl, (is_not_colon "T" refl, (is_not_colon "E" refl, tt))),
    ),
  ),
)

endpoint_permissions-IsMethod : All (λ ep. IsMethod ep.method) endpoint_permissions
endpoint_permissions-IsMethod = (
  get_method,
  (
    post_method,
    (
      get_method,
      (
        put_method,
        (
          delete_method,
          (
            get_method,
            (
              post_method,
              (
                get_method,
                (
                  put_method,
                  (
                    get_method,
                    (
                      post_method,
                      (
                        get_method,
                        (
                          put_method,
                          (
                            delete_method,
                            (
                              get_method,
                              (
                                post_method,
                                (
                                  get_method,
                                  (
                                    put_method,
                                    (get_method, (post_method, (get_method, (put_method, tt)))),
                                  ),
                                ),
                              ),
                            ),
                          ),
                        ),
                      ),
                    ),
                  ),
                ),
              ),
            ),
          ),
        ),
      ),
    ),
  ),
)

lookup-nil : (k : String) {q : EndpointPermission} → lookup k [] ≢ some q
unfolding lookup
lookup-nil k {q} e = absurd (ground arith)

-- Where the request's method holds no colon, the entry that the cached lookup finds is one of the
-- table, for that method, and its pattern matches the path.
pub find_endpoint_permission-IsFor :
    (method path : String) {ep : EndpointPermission}
    → HasNoColon method
    → find_endpoint_permission method path ≡ some ep
    → IsFor method path ep endpoint_permissions
unfolding find_endpoint_permission matches_endpoint
find_endpoint_permission-IsFor method path {ep} plain h =
    elim (Option-cases (lookup (join_colon method path) (exact_matches endpoint_permissions []))) [
      | inl e ↦
          let (there, a, b) =
            find_wildcard_sound method path (wildcard_matches endpoint_permissions)
              (rw (e, find_endpoint_permission) at h) in
          (wildcard_matches_sound endpoint_permissions there, a, b)
      | inr (q, e) ↦
          let same : q ≡ ep = cc (rw (e, find_endpoint_permission) at h) in
          subst (λ x. IsFor method path x endpoint_permissions) same (exact q e)
    ]
  where
    exact :
        (q : EndpointPermission)
        → lookup (join_colon method path) (exact_matches endpoint_permissions []) ≡ some q
        → IsFor method path q endpoint_permissions
    exact q e = elim (exact_matches_sound (join_colon method path) endpoint_permissions [] e) [
      | inl (there, joined) ↦
          let (a, b) =
            join_colon_injective q.method method q.path path
              (IsMethod-HasNoColon (
                All-mem (λ x. IsMethod x.method) endpoint_permissions endpoint_permissions-IsMethod
                  there))
              plain joined in
          (there, a, ground (arith, eq_iff q.path path, b))
      | inr lost ↦ absurd (lookup-nil (join_colon method path) lost)
    ]
