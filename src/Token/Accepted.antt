-- ===== src/Token/Accepted.antt =====
-- What a token must be for the orchestration engine to accept it.
use opendif_core.Base.{
  Bool, Bool-cases, List, Option, Result, String, ap, arith, elem, eq_false→ne, eq_iff, err, false,
  if◌then◌else◌, inl, inr, is_empty, none, ok, some, subst, true, ◌==◌, ◌∙◌, ◌≡◌, ◌≢◌,
}
use opendif_core.Token.Checked.{
  IsNumber, IsOptional, bind_ok, is_audience_valid_sound, optional_number_ok, required_number_ok,
}
use opendif_core.Token.Claims.{
  MapClaims, TokenError, is_audience_valid, ltz, optional_number, required_number, string_claim, ℤ,
}
use opendif_core.Token.Validate.{
  JwtConfig, check_audience, check_expiry, check_issuer, check_not_before, issued_at,
  validate_required_claims, validate_temporal_claims,
}

-- The issuer is the expected one, where one is configured.
abbrev pub IsIssuer : Option JwtConfig → String → Type 0
IsIssuer none iss = Unit
IsIssuer (some config) iss = config.expected_issuer ≢ "" → iss ≡ config.expected_issuer

-- One audience of the token is configured, where audiences are.
abbrev pub IsAudience : Option JwtConfig → List String → Type 0
IsAudience none aud = Unit
IsAudience (some config) aud =
    is_empty config.valid_audiences ≡ false
    → (a : String) × (elem a aud ≡ true) × (elem a config.valid_audiences ≡ true)

pub check_issuer_ok :
    (config : Option JwtConfig) (iss : String) {r : String}
    → check_issuer config iss ≡ ok r
    → (r ≡ iss) × IsIssuer config iss
unfolding check_issuer
check_issuer_ok none iss h = (ground arith, tt)
check_issuer_ok (some config) iss h = elim (Bool-cases (config.expected_issuer == "")) [
  | inl e ↦ (ground arith, λ set. absurd (set ((eq_iff _ _).0 e)))
  | inr e ↦ elim (Bool-cases (iss == "")) [
    | inl f ↦ absurd (ground arith)
    | inr f ↦ elim (Bool-cases (iss == config.expected_issuer)) [
      | inl g ↦ (ground arith, λ set. (eq_iff _ _).0 g)
      | inr g ↦ absurd (ground arith)
    ]
  ]
]

pub check_audience_ok :
    (config : Option JwtConfig) (aud : List String) {r : List String}
    → check_audience config aud ≡ ok r
    → (r ≡ aud) × IsAudience config aud
unfolding check_audience
check_audience_ok none aud h = (ground arith, tt)
check_audience_ok (some config) aud h = elim (Bool-cases (is_empty config.valid_audiences)) [
  | inl e ↦ (ground arith, λ some_set. absurd (ground arith))
  | inr e ↦ elim (Bool-cases (is_audience_valid aud config.valid_audiences)) [
    | inl f ↦ (ground arith, λ some_set. is_audience_valid_sound aud config.valid_audiences f)
    | inr f ↦ absurd (ground arith)
  ]
]

two_guards :
    (d e : TokenError) (x y : String) {c s : String}
    → if◌then◌else◌ {A = Result TokenError (String × String)}
        (x == "")
        (err d)
        (if◌then◌else◌ {A = Result TokenError (String × String)} (y == "") (err e) (ok (x, y)))
      ≡ ok (c, s)
    → (c ≡ x) × (x ≢ "") × (s ≢ "")
two_guards d e x y {c} {s} h = elim (Bool-cases (x == "")) [
  | inl a ↦ absurd (ground arith)
  | inr a ↦ elim (Bool-cases (y == "")) [
    | inl b ↦ absurd (ground arith)
    | inr b ↦
        let same_x : c ≡ x = ground arith in
        let same_y : s ≡ y = ground arith in
        (same_x, eq_false→ne x "" a, rw same_y (eq_false→ne y "" b))
  ]
]

pub validate_required_claims_ok :
    {Number : Type 0} (claims : MapClaims Number) {c s : String}
    → validate_required_claims claims ≡ ok (c, s)
    → (c ≡ string_claim "client_id" claims) × (c ≢ "") × (s ≢ "")
unfolding validate_required_claims
validate_required_claims_ok claims h =
    let (same, set, given) = two_guards _ _ _ _ h in (same, rw same set, given)

module _ {Number : Type 0} (is_negative : Number → Bool) (to_int64 : Number → ℤ) where
  -- The time is not before the token's, where it has one.
  abbrev pub HasStarted : ℤ → Option Number → Type 0
  HasStarted now none = Unit
  HasStarted now (some nbf) = ltz now (to_int64 nbf) ≡ false

  -- The claims of time hold at `now`, and `times` are the expiry and the time of issue.
  pub record IsInTime (claims : MapClaims Number) (now : ℤ) (times : ℤ × ℤ) : Type 0 where
    pub exp : Number
    pub nbf : Option Number
    pub iat : Option Number
    pub has_exp : IsNumber is_negative "exp" claims exp
    pub has_nbf : IsOptional is_negative "nbf" claims nbf
    pub has_iat : IsOptional is_negative "iat" claims iat
    pub not_ended : ltz (to_int64 exp) now ≡ false
    pub started : HasStarted now nbf
    pub given : times ≡ (to_int64 exp, issued_at is_negative to_int64 iat)

  check_not_before_ok :
      (now : ℤ) (nbf : Option Number) (exp : Number) {r : Number}
      → check_not_before is_negative to_int64 now nbf exp ≡ ok r
      → (r ≡ exp) × HasStarted now nbf
  unfolding check_not_before
  check_not_before_ok now none exp h = (ground arith, tt)
  check_not_before_ok now (some nbf) exp h = elim (Bool-cases (ltz now (to_int64 nbf))) [
    | inl e ↦ absurd (ground arith)
    | inr e ↦ (ground arith, e)
  ]

  check_expiry_ok :
      (now : ℤ) (exp : Number) {r : Number}
      → check_expiry is_negative to_int64 now exp ≡ ok r
      → (r ≡ exp) × (ltz (to_int64 exp) now ≡ false)
  unfolding check_expiry
  check_expiry_ok now exp h = elim (Bool-cases (ltz (to_int64 exp) now)) [
    | inl e ↦ absurd (ground arith)
    | inr e ↦ (ground arith, e)
  ]

  pub validate_temporal_claims_ok :
      (claims : MapClaims Number) (now : ℤ) {times : ℤ × ℤ}
      → validate_temporal_claims is_negative to_int64 claims now ≡ ok times
      → IsInTime claims now times
  unfolding validate_temporal_claims
  validate_temporal_claims_ok claims now {times} h =
      let (exp, e₁, h₁) = bind_ok (required_number is_negative "exp" claims) _ h in
      let (nbf, e₂, h₂) = bind_ok (optional_number is_negative "nbf" claims) _ h₁ in
      let (a, e₃, h₃) = bind_ok (check_not_before is_negative to_int64 now nbf exp) _ h₂ in
      let (b, e₄, h₄) = bind_ok (check_expiry is_negative to_int64 now a) _ h₃ in
      let (iat, e₅, h₅) = bind_ok (optional_number is_negative "iat" claims) _ h₄ in
      let (same_a, begun) = check_not_before_ok now nbf exp e₃ in
      let (same_b, unended) = check_expiry_ok now a e₄ in
      let same : times ≡ (to_int64 b, issued_at is_negative to_int64 iat) = ground arith in
      record {
        exp = exp;
        nbf = nbf;
        iat = iat;
        has_exp = required_number_ok is_negative "exp" claims e₁;
        has_nbf = optional_number_ok is_negative "nbf" claims e₂;
        has_iat = optional_number_ok is_negative "iat" claims e₅;
        not_ended = subst (λ x. ltz (to_int64 x) now ≡ false) same_a unended;
        started = begun;
        given = same ∙ ap (λ x. (to_int64 x, issued_at is_negative to_int64 iat)) (same_b ∙ same_a);
      }
