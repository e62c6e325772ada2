-- ===== src/Token/Claims.antt =====
-- The claims of a token and the readers of single claims:
-- exchange/orchestration-engine/auth/token.go.
-- A float64 is an element of the parameter `Number`, of which the code uses the test against 0 and
-- the conversion to int64.
use opendif_core.Base.{
  Bool, Dict, List, Option, Result, String, [], elem, err, false, if◌then◌else◌, lookup, ltb, none,
  ok, some, true, ℕ, ◌>>=◌, ◌||◌, ◌∷◌,
}

-- int64
pub data ℤ : Type 0 where
  pos : ℕ → ℤ
  negsuc : ℕ → ℤ

abbrev pub ltz : ℤ → ℤ → Bool
ltz (pos a) (pos b) = ltb a b
ltz (pos a) (negsuc b) = false
ltz (negsuc a) (pos b) = true
ltz (negsuc a) (negsuc b) = ltb b a

-- A decoded JSON value as the code tells them apart; an element of a list is `none` where it is
-- not a string.
pub data Claim (Number : Type 0) : Type 0 where
  claim_string : String → Claim Number
  claim_number : Number → Claim Number
  claim_list : List (Option String) → Claim Number
  claim_other : Claim Number

abbrev pub MapClaims : Type 0 → Type 0
MapClaims Number = Dict (Claim Number)

pub data TokenError : Type 0 where
  missing_header not_bearer token_too_large token_empty : TokenError
  parse_error validator_required missing_jwks_url url_mismatch : TokenError
  missing_claim invalid_claim_type negative_claim : String → TokenError
  not_valid_yet token_expired : TokenError
  missing_client_id missing_subscriber : TokenError
  missing_issuer invalid_issuer invalid_audience : TokenError

-- the field that holds the text, or "" where the claim is absent or no string
unfoldable pub string_claim : {Number : Type 0} → String → MapClaims Number → String
string_claim name claims = elim (lookup name claims) [
  | none ↦ ""
  | some (claim_string s) ↦ s
  | some _ ↦ ""
]

module _ {Number : Type 0} (is_negative : Number → Bool) where
  -- a claim that must be a number that is not negative
  unfoldable pub number_of : String → Claim Number → Result TokenError Number
  number_of name (claim_number n) = if is_negative n then err (negative_claim name) else ok n
  number_of name (claim_string s) = err (invalid_claim_type name)
  number_of name (claim_list l) = err (invalid_claim_type name)
  number_of name claim_other = err (invalid_claim_type name)

  unfoldable pub required_number : String → MapClaims Number → Result TokenError Number
  required_number name claims = elim (lookup name claims) [
    | none ↦ err (missing_claim name)
    | some c ↦ number_of name c
  ]

  unfoldable pub optional_number : String → MapClaims Number → Result TokenError (Option Number)
  optional_number name claims = elim (lookup name claims) [
    | none ↦ ok none
    | some c ↦ do n ← number_of name c; ok (some n)
  ]

unfoldable pub strings_of : List (Option String) → List String
strings_of [] = []
strings_of (a ∷ rest) = elim a [ none ↦ strings_of rest | some s ↦ s ∷ strings_of rest ]

unfoldable pub extract_audience : {Number : Type 0} → MapClaims Number → List String
extract_audience claims = elim (lookup "aud" claims) [
  | none ↦ []
  | some (claim_string s) ↦ s ∷ []
  | some (claim_list l) ↦ strings_of l
  | some _ ↦ []
]

unfoldable pub is_audience_valid : (token_audiences valid_audiences : List String) → Bool
is_audience_valid [] valid_audiences = false
is_audience_valid (a ∷ rest) valid_audiences =
    elem a valid_audiences || is_audience_valid rest valid_audiences
