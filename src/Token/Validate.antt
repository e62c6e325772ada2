-- ===== src/Token/Validate.antt =====
-- The validation of a request's token: exchange/orchestration-engine/auth/token.go.
use Prim.Native.String.{len, slice}
use text.Mathlib.Text.{starts_with}
use opendif_core.Base.{
  Bool, List, Option, Result, String, err, false, if◌then◌else◌, is_empty, ltb, none, not, ok, some,
  true, ◌&&◌, ◌*◌, ◌==◌, ◌>>=◌,
}
use opendif_core.Consent.Memory.{checked}
use opendif_core.Token.Claims.{
  MapClaims, TokenError, extract_audience, invalid_audience, invalid_issuer, is_audience_valid, ltz,
  missing_client_id, missing_header, missing_issuer, missing_jwks_url, missing_subscriber,
  not_bearer, not_valid_yet, optional_number, parse_error, pos, required_number, string_claim,
  token_empty, token_expired, token_too_large, url_mismatch, validator_required, ℤ,
}

pub record JwtConfig : Type 0 where
  pub jwks_url : String
  pub expected_issuer : String
  pub valid_audiences : List String

pub record ConsumerAssertion : Type 0 where
  pub application_id : String
  pub client_id : String
  pub subscriber : String
  pub iss : String
  pub aud : List String
  pub exp : ℤ
  pub iat : ℤ

-- `verify` is jwt.Parse with the key set of the validator: `none` is its error or an invalid token.
pub record TokenValidator (Number : Type 0) : Type 0 where
  pub jwks_url : String
  pub verify : String → Option (MapClaims Number)

-- the text of the Authorization header, "" where there is none
unfoldable pub extract_token_from_request : String → Result TokenError String
extract_token_from_request auth_header =
    if auth_header == ""
    then err missing_header
    else if not (starts_with auth_header "Bearer ")
    then err not_bearer
    else let token = slice auth_header (len "Bearer ") (len auth_header) in
      if ltb (16 * 1024) (len token)
      then err token_too_large
      else if token == ""
      then err token_empty
      else ok token

unfoldable pub validate_required_claims :
    {Number : Type 0} → MapClaims Number → Result TokenError (String × String)
validate_required_claims claims =
    let client_id = string_claim "client_id" claims in
    let sub = string_claim "sub" claims in
    let subscriber = if sub == "" then string_claim "azp" claims else sub in
    if client_id == ""
    then err missing_client_id
    else if subscriber == ""
    then err missing_subscriber
    else ok (client_id, subscriber)

unfoldable pub check_issuer : Option JwtConfig → String → Result TokenError String
check_issuer none iss = ok iss
check_issuer (some config) iss =
    if config.expected_issuer == ""
    then ok iss
    else if iss == ""
    then err missing_issuer
    else if iss == config.expected_issuer
    then ok iss
    else err invalid_issuer

unfoldable pub check_audience : Option JwtConfig → List String → Result TokenError (List String)
check_audience none aud = ok aud
check_audience (some config) aud =
    if not (is_empty config.valid_audiences) && not (is_audience_valid aud config.valid_audiences)
    then err invalid_audience
    else ok aud

unfoldable pub validate_issuer_and_audience :
    {Number : Type 0}
    → MapClaims Number
    → Option JwtConfig
    → Result TokenError (String × List String)
validate_issuer_and_audience claims config = do
  iss ← check_issuer config (string_claim "iss" claims)
  aud ← check_audience config (extract_audience claims)
  ok (iss, aud)

module _ {Number : Type 0} (is_negative : Number → Bool) (to_int64 : Number → ℤ) where
  -- the checks against the clock
  unfoldable pub check_not_before : ℤ → Option Number → Number → Result TokenError Number
  check_not_before now none exp = ok exp
  check_not_before now (some nbf) exp = if ltz now (to_int64 nbf) then err not_valid_yet else ok exp

  unfoldable pub check_expiry : ℤ → Number → Result TokenError Number
  check_expiry now exp = if ltz (to_int64 exp) now then err token_expired else ok exp

  unfoldable pub issued_at : Option Number → ℤ
  issued_at none = pos 0
  issued_at (some iat) = to_int64 iat

  unfoldable pub validate_temporal_claims : MapClaims Number → ℤ → Result TokenError (ℤ × ℤ)
  validate_temporal_claims claims now = do
    exp ← required_number is_negative "exp" claims
    nbf ← optional_number is_negative "nbf" claims
    started ← check_not_before now nbf exp
    current ← check_expiry now started
    iat ← optional_number is_negative "iat" claims
    ok (to_int64 current, issued_at iat)

-- `parse_unverified` is the parser of the JWT library.
module _ {Number : Type 0} (parse_unverified : String → Option (MapClaims Number)) where
  abbrev pub parsed : Option (MapClaims Number) → Result TokenError (MapClaims Number)
  parsed none = err parse_error
  parsed (some claims) = ok claims

  -- the branch that checks the signature
  unfoldable pub verify_token :
      String
      → Option (TokenValidator Number)
      → Option JwtConfig
      → Result TokenError (MapClaims Number)
  verify_token token none config = err validator_required
  verify_token token (some v) none = err missing_jwks_url
  verify_token token (some v) (some config) =
      if config.jwks_url == ""
      then err missing_jwks_url
      else if not (v.jwks_url == config.jwks_url)
      then err url_mismatch
      else parsed (v.verify token)

  unfoldable pub parse_and_validate_token :
      String
      → Bool
      → Option (TokenValidator Number)
      → Option JwtConfig
      → Result TokenError (MapClaims Number)
  parse_and_validate_token token true validator config = parsed (parse_unverified token)
  parse_and_validate_token token false validator config = verify_token token validator config

  module _ (is_negative : Number → Bool) (to_int64 : Number → ℤ) where
    -- from the claims on
    unfoldable pub assertion_of :
        MapClaims Number → Option JwtConfig → ℤ → Result TokenError ConsumerAssertion
    assertion_of claims config now = do
      times ← validate_temporal_claims is_negative to_int64 claims now
      ids ← validate_required_claims claims
      checked ← validate_issuer_and_audience claims config
      ok (record {
        application_id = ids.0;
        client_id = ids.0;
        subscriber = ids.1;
        iss = checked.0;
        aud = checked.1;
        exp = times.0;
        iat = times.1;
      })

    unfoldable pub get_consumer_jwt_from_token_with_validator :
        Option JwtConfig
        → Bool
        → String
        → Option (TokenValidator Number)
        → ℤ
        → Result TokenError ConsumerAssertion
    get_consumer_jwt_from_token_with_validator config trust_upstream auth_header validator now = do
      token ← extract_token_from_request auth_header
      claims ← parse_and_validate_token token trust_upstream validator config
      assertion_of claims config now
