-- ===== src/Token/Fetched.antt =====
-- What a fetched key set is, and where it may come from.
use text.Mathlib.Text.{find?}
use opendif_core.Base.{
  All, Bool-cases, List, Option, Option-cases, String, [], ap, arith, eq_false→ne, eq_iff, eqb,
  false, if◌then◌else◌, inl, inr, is_empty, lookup, none, ok, refl, some, subst, ◌==◌, ◌||◌, ◌∙◌,
  ◌∷◌, ◌≡◌, ◌≢◌, ◌⊎◌,
}
use opendif_core.Token.Jwks.{
  Body, Key, Net, ParsedUrl, check_hostname, check_url, delete, fetch, fetch_and_filter_jwks,
  fetch_checked, filter_keys, is_private_ip, not_json, read_body, text_at, with_keys, without_keys,
}

-- A key that the JWT library can use: both ids are texts that are not empty, and there is no
-- certificate chain.
abbrev pub IsUsable : Key → Type 0
IsUsable k =
    ((text_at "kid" k == "") ≡ false) × ((text_at "kty" k == "") ≡ false) × (lookup "x5c" k ≡ none)

lookup-delete :
    (name other : String) (k : Key)
    → lookup other (delete name k) ≡ (if name == other then none else lookup other k)
unfolding lookup delete
lookup-delete name other [] = ground arith
lookup-delete name other (entry ∷ k) = elim (Bool-cases (entry.0 == name)) [
  | inl same ↦ ground (
    arith,
    lookup-delete name other k,
    eq_iff entry.0 name,
    eq_iff entry.0 other,
    eq_iff name other,
  )
  | inr differ ↦ ground (
    arith,
    lookup-delete name other k,
    eq_iff entry.0 name,
    eq_iff entry.0 other,
    eq_iff name other,
  )
]

text_at-delete :
    (name other : String) (k : Key)
    → (name == other) ≡ false
    → text_at other (delete name k) ≡ text_at other k
unfolding text_at
text_at-delete name other k h =
    let same : lookup other (delete name k) ≡ lookup other k =
      lookup-delete name other k ∙ (rw h) in
    rw (same, text_at)

filter_keys-IsUsable : (ks : List (Option Key)) → All IsUsable (filter_keys ks)
unfolding filter_keys
filter_keys-IsUsable [] = tt
filter_keys-IsUsable (none ∷ ks) = filter_keys-IsUsable ks
filter_keys-IsUsable (some k ∷ ks) =
    elim (Bool-cases (text_at "kid" k == "" || text_at "kty" k == "")) [
      | inl e ↦ rw e (filter_keys-IsUsable ks)
      | inr e ↦
          let kid : (text_at "kid" k == "") ≡ false = ground arith in
          let kty : (text_at "kty" k == "") ≡ false = ground arith in
          rw e (
            (
              ap (λ t. t == "") (text_at-delete "x5c" "kid" k refl) ∙ kid,
              ap (λ t. t == "") (text_at-delete "x5c" "kty" k refl) ∙ kty,
              lookup-delete "x5c" "x5c" k,
            ),
            filter_keys-IsUsable ks,
          )
    ]

read_body_ok :
    (b : Body) {ks : List Key} → read_body b ≡ ok ks → (is_empty ks ≡ false) × All IsUsable ks
unfolding read_body
read_body_ok not_json h = absurd (ground arith)
read_body_ok without_keys h = absurd (ground arith)
read_body_ok (with_keys raw) {ks} h = elim (Bool-cases (is_empty raw)) [
  | inl e ↦ absurd (ground arith)
  | inr e ↦ elim (Bool-cases (is_empty (filter_keys raw))) [
    | inl f ↦ absurd (ground arith)
    | inr f ↦
        let same : filter_keys raw ≡ ks = ground arith in
        subst (λ l. (is_empty l ≡ false) × All IsUsable l) same (f, filter_keys-IsUsable raw)
  ]
]

module _ (net : Net) where
  open net use {parse_url, get}

  -- Where the key set may come from: http or https, a host, and in production and staging neither
  -- the address of a cloud's metadata nor a private, loopback or link-local one.
  pub record IsSafe (environment : String) (u : ParsedUrl) : Type 0 where
    pub scheme_ok : (u.scheme ≡ "http") ⊎ (u.scheme ≡ "https")
    pub host_set : u.host ≢ ""
    pub guarded :
        (environment ≡ "production") ⊎ (environment ≡ "staging")
        → (find? u.hostname "169.254.169.254" ≡ none) × (is_private_ip net u.hostname ≡ false)

  check_hostname-none :
      (environment hostname : String)
      → check_hostname net environment hostname ≡ none
      → (environment ≡ "production") ⊎ (environment ≡ "staging")
      → (find? hostname "169.254.169.254" ≡ none) × (is_private_ip net hostname ≡ false)
  unfolding check_hostname
  check_hostname-none environment hostname h live =
      elim (Bool-cases (environment == "production" || environment == "staging")) [
        | inl e ↦ elim (Option-cases (find? hostname "169.254.169.254")) [
          | inl f ↦ elim (Bool-cases (is_private_ip net hostname)) [
            | inl g ↦ absurd (ground arith)
            | inr g ↦ (f, g)
          ]
          | inr (at, f) ↦ absurd (ground arith)
        ]
        | inr e ↦ elim live [
          | inl p ↦ absurd (ground (arith, eq_iff environment "production"))
          | inr p ↦ absurd (ground (arith, eq_iff environment "staging"))
        ]
      ]

  check_url-IsSafe :
      (environment : String) (u : ParsedUrl)
      → check_url net environment u ≡ none
      → IsSafe environment u
  unfolding check_url
  check_url-IsSafe environment u h = elim (Bool-cases (u.host == "")) [
    | inl e ↦ absurd (ground arith)
    | inr e ↦ record {
      scheme_ok = ground (arith, eq_iff u.scheme "http", eq_iff u.scheme "https");
      host_set = eq_false→ne _ _ e;
      guarded = check_hostname-none environment u.hostname (ground arith);
    }
  ]

  fetch_ok :
      (url : String) {ks : List Key}
      → fetch net url ≡ ok ks
      → (is_empty ks ≡ false) × All IsUsable ks
  unfolding fetch
  fetch_ok url h = elim (Option-cases (get url)) [
    | inl e ↦ absurd (ground arith)
    | inr ((status, body), e) ↦ elim (Bool-cases (eqb status 200)) [
      | inl f ↦ read_body_ok body (ground arith)
      | inr f ↦ absurd (ground arith)
    ]
  ]

  -- The fetch gives a key set only from a URL that parses, with the scheme http or https and a
  -- host; in production and staging its host name does not hold the metadata address and is no
  -- private, loopback or link-local address. The set is not empty, and each key in it has the texts
  -- kid and kty, not empty, and no member x5c.
  pub fetch_and_filter_jwks_ok :
      (url environment : String) {ks : List Key}
      → fetch_and_filter_jwks net url environment ≡ ok ks
      → ((u : ParsedUrl) × (parse_url url ≡ some u) × IsSafe environment u)
        × (is_empty ks ≡ false)
        × All IsUsable ks
  unfolding fetch_and_filter_jwks fetch_checked
  fetch_and_filter_jwks_ok url environment h = elim (Option-cases (parse_url url)) [
    | inl e ↦ absurd (ground arith)
    | inr (u, e) ↦ elim (Option-cases (check_url net environment u)) [
      | inl f ↦
          let (some_keys, usable) = fetch_ok url (ground arith) in
          ((u, e, check_url-IsSafe environment u f), some_keys, usable)
      | inr (bad, f) ↦ absurd (ground arith)
    ]
  ]
