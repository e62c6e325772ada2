-- ===== src/Token/Jwks.antt =====
-- The fetch and the filter of the key set: exchange/orchestration-engine/auth/token.go.
-- A JSON object is its members in order; of a member the code reads whether it is a string. What
-- url.Parse, net.ParseIP, the HTTP client and the JSON decoder give are parameters, in `Net`.
use text.Mathlib.Text.{find?}
use opendif_core.Base.{
  Bool, Dict, List, Option, Result, String, [], eqb, err, false, if◌then◌else◌, is_empty, is_nil,
  lookup, none, not, ok, some, ℕ, ◌&&◌, ◌==◌, ◌||◌, ◌∷◌,
}

pub data Member : Type 0 where
  text_member : String → Member
  other_member : Member

abbrev pub Key : Type 0
Key = Dict Member

pub record ParsedUrl : Type 0 where
  pub scheme : String
  pub host : String
  pub hostname : String

pub data JwksError : Type 0 where
  invalid_url invalid_scheme missing_host metadata_endpoint private_network : JwksError
  fetch_error bad_status bad_json missing_keys no_keys no_valid_keys : JwksError

-- the response body: no JSON object, no array under "keys", or the array, in which an element is
-- `none` where it is no object
pub data Body : Type 0 where
  not_json without_keys : Body
  with_keys : List (Option Key) → Body

pub record Net : Type 0 where
  pub parse_url : String → Option ParsedUrl
  -- IsLoopback, IsPrivate and IsLinkLocalUnicast of the address; `none` is no address
  pub parse_ip : String → Option (Bool × (Bool × Bool))
  -- the status and the body, or a failure of the request
  pub get : String → Option (ℕ × Body)

unfoldable pub text_at : String → Key → String
text_at name k = elim (lookup name k) [
  | none ↦ ""
  | some (text_member s) ↦ s
  | some other_member ↦ ""
]

-- delete(keyMap, name)
unfoldable pub delete : String → Key → Key
delete name [] = []
delete name (entry ∷ k) = let rest = delete name k in if entry.0 == name then rest else entry ∷ rest

-- the loop over the keys
unfoldable pub filter_keys : List (Option Key) → List Key
filter_keys [] = []
filter_keys (o ∷ ks) =
    let rest = filter_keys ks in
    elim o [
      | none ↦ rest
      | some k ↦
          if text_at "kid" k == "" || text_at "kty" k == "" then rest else delete "x5c" k ∷ rest
    ]

-- the part of fetchAndFilterJWKS after the response
unfoldable pub read_body : Body → Result JwksError (List Key)
read_body not_json = err bad_json
read_body without_keys = err missing_keys
read_body (with_keys ks) =
    if is_empty ks
    then err no_keys
    else if is_empty (filter_keys ks)
    then err no_valid_keys
    else ok (filter_keys ks)

module _ (net : Net) where
  open net use {parse_url, parse_ip, get}

  unfoldable pub is_private_ip : String → Bool
  is_private_ip host = elim (parse_ip host) [
    | none ↦ false
    | some (is_loopback, (is_private, is_link_local)) ↦ is_loopback || (is_private || is_link_local)
  ]

  -- the protection against requests to internal networks
  unfoldable pub check_hostname : String → String → Option JwksError
  check_hostname environment hostname =
      if not (environment == "production" || environment == "staging")
      then none
      else if not (is_nil (find? hostname "169.254.169.254"))
      then some metadata_endpoint
      else if is_private_ip hostname
      then some private_network
      else none

  unfoldable pub check_url : String → ParsedUrl → Option JwksError
  check_url environment u =
      if not (u.scheme == "http") && not (u.scheme == "https")
      then some invalid_scheme
      else if u.host == ""
      then some missing_host
      else check_hostname environment u.hostname

  -- from the request on
  unfoldable pub fetch : String → Result JwksError (List Key)
  fetch url = elim (get url) [
    | none ↦ err fetch_error
    | some (status, body) ↦ if not (eqb status 200) then err bad_status else read_body body
  ]

  unfoldable pub fetch_checked : String → String → ParsedUrl → Result JwksError (List Key)
  fetch_checked url environment u = elim (check_url environment u) [
    | some e ↦ err e
    | none ↦ fetch url
  ]

  unfoldable pub fetch_and_filter_jwks : String → String → Result JwksError (List Key)
  fetch_and_filter_jwks url environment = elim (parse_url url) [
    | none ↦ err invalid_url
    | some u ↦ fetch_checked url environment u
  ]
