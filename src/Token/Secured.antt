-- ===== src/Token/Secured.antt =====
-- GetConsumerJwtFromTokenWithValidator as a whole.
use opendif_core.Base.{
  Bool, Bool-cases, Option, String, arith, eq_false→ne, eq_iff, false, inl, inr, none, ok, refl,
  some, subst, true, ◌==◌, ◌≡◌, ◌≢◌,
}
use opendif_core.Consent.Memory.{checked}
use opendif_core.Token.Accepted.{
  IsAudience, IsInTime, IsIssuer, check_audience_ok, check_issuer_ok, validate_required_claims_ok,
  validate_temporal_claims_ok,
}
use opendif_core.Token.Checked.{bind_ok}
use opendif_core.Token.Claims.{MapClaims, extract_audience, string_claim, ℤ}
use opendif_core.Token.Validate.{
  ConsumerAssertion, JwtConfig, TokenValidator, assertion_of, check_audience, check_issuer,
  extract_token_from_request, get_consumer_jwt_from_token_with_validator, parse_and_validate_token,
  parsed, validate_issuer_and_audience, validate_required_claims, validate_temporal_claims,
  verify_token,
}

module _ {Number : Type 0} (parse_unverified : String → Option (MapClaims Number)) where
  -- Where the claims come from: the parser alone if upstream is trusted; otherwise the validator's
  -- verification, of a validator for the configured URL.
  abbrev pub IsSource :
      String → Bool → Option (TokenValidator Number) → Option JwtConfig → MapClaims Number → Type 0
  IsSource token true validator config claims = parse_unverified token ≡ some claims
  IsSource token false validator config claims =
      (v : TokenValidator Number) × (c : JwtConfig) × (validator ≡ some v)
      × (config ≡ some c)
      × (c.jwks_url ≢ "")
      × (v.jwks_url ≡ c.jwks_url)
      × (v.verify token ≡ some claims)

  parsed_ok :
      (o : Option (MapClaims Number)) {claims : MapClaims Number}
      → parsed parse_unverified o ≡ ok claims
      → o ≡ some claims
  parsed_ok none h = absurd (ground arith)
  parsed_ok (some c) h = ground arith

  verify_token_ok :
      (token : String) (validator : Option (TokenValidator Number)) (config : Option JwtConfig)
      {claims : MapClaims Number}
      → verify_token parse_unverified token validator config ≡ ok claims
      → IsSource token false validator config claims
  unfolding verify_token
  verify_token_ok token none config h = absurd (ground arith)
  verify_token_ok token (some v) none h = absurd (ground arith)
  verify_token_ok token (some v) (some c) h = elim (Bool-cases (c.jwks_url == "")) [
    | inl e ↦ absurd (ground arith)
    | inr e ↦ elim (Bool-cases (v.jwks_url == c.jwks_url)) [
      | inl f ↦ (
        v,
        c,
        refl,
        refl,
        eq_false→ne _ _ e,
        (eq_iff _ _).0 f,
        parsed_ok (v.verify token) (ground arith),
      )
      | inr f ↦ absurd (ground arith)
    ]
  ]

  parse_and_validate_token_ok :
      (token : String) (trust : Bool) (validator : Option (TokenValidator Number))
      (config : Option JwtConfig) {claims : MapClaims Number}
      → parse_and_validate_token parse_unverified token trust validator config ≡ ok claims
      → IsSource token trust validator config claims
  unfolding parse_and_validate_token
  parse_and_validate_token_ok token true validator config h = parsed_ok (parse_unverified token) h
  parse_and_validate_token_ok token false validator config h =
      verify_token_ok token validator config h

  module _ (is_negative : Number → Bool) (to_int64 : Number → ℤ) where
    -- The claims are what the assertion says, and hold at `now`.
    pub record IsAsserted (claims : MapClaims Number) (config : Option JwtConfig) (now : ℤ)
        (a : ConsumerAssertion) : Type 0 where
      pub in_time : IsInTime is_negative to_int64 claims now (a.exp, a.iat)
      pub client : (a.client_id ≡ string_claim "client_id" claims) × (a.client_id ≢ "")
      pub application : a.application_id ≡ a.client_id
      pub has_subscriber : a.subscriber ≢ ""
      pub issuer : IsIssuer config (string_claim "iss" claims)
      pub audience : IsAudience config (extract_audience claims)

    assertion_of-IsAsserted :
        (claims : MapClaims Number) (config : Option JwtConfig) (now : ℤ) {a : ConsumerAssertion}
        → assertion_of parse_unverified is_negative to_int64 claims config now ≡ ok a
        → IsAsserted claims config now a
    unfolding assertion_of validate_issuer_and_audience
    assertion_of-IsAsserted claims config now {a} h =
        let (times, e₁, h₁) =
          bind_ok (validate_temporal_claims is_negative to_int64 claims now) _ h in
        let ((c, s), e₂, h₂) = bind_ok (validate_required_claims claims) _ h₁ in
        let (checked, e₃, h₃) = bind_ok (validate_issuer_and_audience claims config) _ h₂ in
        let (iss, e₄, h₄) = bind_ok (check_issuer config (string_claim "iss" claims)) _ e₃ in
        let (aud, e₅, h₅) = bind_ok (check_audience config (extract_audience claims)) _ h₄ in
        let (same, set, subject) = validate_required_claims_ok claims e₂ in
        let is : ConsumerAssertion = record {
          application_id = c;
          client_id = c;
          subscriber = s;
          iss = checked.0;
          aud = checked.1;
          exp = times.0;
          iat = times.1;
        } in
        let equal : is ≡ a = ground arith in
        subst (IsAsserted claims config now) equal (record {
          in_time = validate_temporal_claims_ok is_negative to_int64 claims now e₁;
          client = (same, set);
          application = refl;
          has_subscriber = subject;
          issuer = (check_issuer_ok config _ e₄).1;
          audience = (check_audience_ok config _ e₅).1;
        })

    -- An assertion is given only for a header with a token whose claims come from the parser, if
    -- upstream is trusted, and otherwise from the verification of a validator for the configured
    -- URL. The claims have an expiry that is no number below 0 and has not passed, and no later
    -- nbf; a client id, which is also the application's, and a subscriber, none of them empty; and
    -- the issuer and an audience that are configured, where they are.
    pub get_consumer_jwt-IsAsserted :
        (config : Option JwtConfig) (trust : Bool) (header : String)
        (validator : Option (TokenValidator Number)) (now : ℤ) {a : ConsumerAssertion}
        → get_consumer_jwt_from_token_with_validator parse_unverified is_negative to_int64 config
            trust header validator now
          ≡ ok a
        → (token : String) × (claims : MapClaims Number) × (extract_token_from_request header
            ≡ ok token)
          × IsSource token trust validator config claims
          × IsAsserted claims config now a
    unfolding get_consumer_jwt_from_token_with_validator
    get_consumer_jwt-IsAsserted config trust header validator now h =
        let (token, e₁, h₁) = bind_ok (extract_token_from_request header) _ h in
        let (claims, e₂, h₂) =
          bind_ok (parse_and_validate_token parse_unverified token trust validator config) _ h₁ in
        (
          token,
          claims,
          e₁,
          parse_and_validate_token_ok token trust validator config e₂,
          assertion_of-IsAsserted claims config now h₂,
        )
