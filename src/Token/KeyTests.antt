-- ===== src/Token/KeyTests.antt =====
-- Runs of the fetch of the key set, and an instance of its theorem.
use opendif_core.Base.{
  All, String, [], err, false, if◌then◌else◌, is_empty, lookup, none, ok, refl, some, true, ◌==◌,
  ◌∷◌, ◌≡◌,
}
use opendif_core.Token.Fetched.{IsSafe, IsUsable, fetch_and_filter_jwks_ok}
use opendif_core.Token.Jwks.{
  Key, Net, ParsedUrl, check_hostname, check_url, delete, fetch, fetch_and_filter_jwks,
  fetch_checked, filter_keys, is_private_ip, metadata_endpoint, other_member, private_network,
  read_body, text_at, text_member, with_keys,
}

abbrev rsa_key : Key
rsa_key = ("kid", text_member "k1") ∷ ("kty", text_member "RSA") ∷ ("x5c", other_member) ∷ []

abbrev bare_key : Key
bare_key = ("kty", text_member "RSA") ∷ []

abbrev idp_host : String → ParsedUrl
idp_host name = record { scheme = "https"; host = name; hostname = name }

abbrev answers : String → Net
answers name = record {
  parse_url = λ url. some (idp_host name);
  parse_ip = λ host. if host == "10.0.0.1" then some (false, (true, false)) else none;
  get = λ url. some (200, with_keys (some bare_key ∷ none ∷ some rsa_key ∷ []));
}

abbrev kept_key : Key
kept_key = ("kid", text_member "k1") ∷ ("kty", text_member "RSA") ∷ []

service : Unit {0}
unfolding fetch_and_filter_jwks fetch_checked fetch read_body filter_keys delete text_at check_url
    check_hostname is_private_ip lookup
service = tt

kept_test :
    fetch_and_filter_jwks (answers "idp") "https://idp/jwks" "production" ≡ ok (kept_key ∷ [])
unfolding service
kept_test = refl

private_test :
    fetch_and_filter_jwks (answers "10.0.0.1") "https://10.0.0.1/jwks" "staging"
    ≡ err private_network
unfolding service
private_test = refl

metadata_test :
    fetch_and_filter_jwks (answers "169.254.169.254") "https://169.254.169.254" "production"
    ≡ err metadata_endpoint
unfolding service
metadata_test = refl

-- Elsewhere the protection is off.
local_test :
    fetch_and_filter_jwks (answers "10.0.0.1") "https://10.0.0.1/jwks" "local" ≡ ok (kept_key ∷ [])
unfolding service
local_test = refl

fetch_and_filter_jwks_ok_example :
    ((u : ParsedUrl) × ((answers "idp").parse_url "https://idp/jwks" ≡ some u)
      × IsSafe (answers "idp") "production" u)
    × (is_empty (kept_key ∷ []) ≡ false)
    × All IsUsable (kept_key ∷ [])
unfolding service
fetch_and_filter_jwks_ok_example =
    fetch_and_filter_jwks_ok (answers "idp") "https://idp/jwks" "production" refl
