-- ===== src/Token/Tests.antt =====
-- Runs of the token validation, and an instance of its theorem. Numbers are integers here.
use opendif_core.Base.{
  Bool, Option, Result, String, [], err, false, lookup, none, ok, refl, some, ℕ, ◌∷◌, ◌≡◌,
}
use opendif_core.Token.Claims.{
  MapClaims, TokenError, claim_list, claim_number, claim_string, extract_audience,
  is_audience_valid, ltz, not_bearer, number_of, optional_number, pos, required_number,
  string_claim, strings_of, token_empty, token_expired, ℤ,
}
use opendif_core.Token.Secured.{IsAsserted, IsSource, get_consumer_jwt-IsAsserted}
use opendif_core.Token.Validate.{
  ConsumerAssertion, JwtConfig, TokenValidator, assertion_of, check_audience, check_expiry,
  check_issuer, check_not_before, extract_token_from_request,
  get_consumer_jwt_from_token_with_validator, issued_at, parse_and_validate_token,
  validate_issuer_and_audience, validate_required_claims, validate_temporal_claims, verify_token,
}

abbrev below_zero : ℤ → Bool
below_zero n = ltz n (pos 0)

abbrev same_number : ℤ → ℤ
same_number n = n

abbrev claims_until : ℕ → MapClaims ℤ
claims_until t =
    ("exp", claim_number (pos t))
    ∷ ("client_id", claim_string "app1")
    ∷ ("azp", claim_string "alice")
    ∷ ("iss", claim_string "idp")
    ∷ ("aud", claim_list (none ∷ some "oe" ∷ []))
    ∷ []

abbrev jwt_config : JwtConfig
jwt_config = record {
  jwks_url = "https://idp/jwks";
  expected_issuer = "idp";
  valid_audiences = "oe" ∷ [];
}

abbrev jwks_validator : TokenValidator ℤ
jwks_validator = record { jwks_url = "https://idp/jwks"; verify = λ token. some (claims_until 100) }

abbrev unverified : String → Option (MapClaims ℤ)
unverified token = some (claims_until 100)

abbrev alice : ConsumerAssertion
alice = record {
  application_id = "app1";
  client_id = "app1";
  subscriber = "alice";
  iss = "idp";
  aud = "oe" ∷ [];
  exp = pos 100;
  iat = pos 0;
}

abbrev check_at : String → ℕ → Result TokenError ConsumerAssertion
check_at header now =
    get_consumer_jwt_from_token_with_validator unverified below_zero same_number (some jwt_config)
      false header (some jwks_validator) (pos now)

service : Unit {0}
unfolding get_consumer_jwt_from_token_with_validator assertion_of parse_and_validate_token
    verify_token extract_token_from_request validate_temporal_claims validate_required_claims
    validate_issuer_and_audience check_issuer check_audience is_audience_valid extract_audience
    strings_of string_claim number_of required_number optional_number check_not_before check_expiry
    issued_at lookup
service = tt

current_test : check_at "Bearer x.y.z" 100 ≡ ok alice
unfolding service
current_test = refl

late_test : check_at "Bearer x.y.z" 101 ≡ err token_expired
unfolding service
late_test = refl

scheme_test : check_at "Basic x" 1 ≡ err not_bearer
unfolding service
scheme_test = refl

no_token_test : check_at "Bearer " 1 ≡ err token_empty
unfolding service
no_token_test = refl

get_consumer_jwt-IsAsserted_example :
    (token : String) × (claims : MapClaims ℤ) × (extract_token_from_request "Bearer x.y.z"
      ≡ ok token)
    × IsSource unverified token false (some jwks_validator) (some jwt_config) claims
    × IsAsserted unverified below_zero same_number claims (some jwt_config) (pos 100) alice
unfolding service
get_consumer_jwt-IsAsserted_example =
    get_consumer_jwt-IsAsserted unverified below_zero same_number (some jwt_config) false
      "Bearer x.y.z" (some jwks_validator) (pos 100) refl
