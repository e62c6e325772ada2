-- ===== src/Orchestration/Tests.antt =====
-- Runs of FederateQuery, and instances of its theorems.
use opendif_core.Base.{
  Bool, List, Memᴰ, Option, Result, String, [], arith, eq_false→ne, false, inr, insert, join_colon,
  lookup, none, ok, refl, some, true, ◌∷◌, ◌≡◌,
}
use opendif_core.Orchestration.Answered.{IsSent, federate_query-IsSent}
use opendif_core.Orchestration.Authorized.{
  IsDecided, IsOpen, federate_query_authorized, read_fields, read_records, read_response,
}
use opendif_core.Orchestration.Checks.{
  Event, asked_ce, asked_pdp, check_consent, check_policy, consent_fields, consent_request,
  data_owner, judge_consent, judge_reply, judge_response, pdp_request, queried, require_consent,
  required_fields_of,
}
use opendif_core.Orchestration.Federate.{
  Answer, dispatch, federate_allowed, federate_owned, federate_query, federated, get_provider,
  new_provider_handler, perform_federation, refused,
}
use opendif_core.Orchestration.Models.{
  CeConsentResponse, CeCreateConsentRequest, ErrorReply, FederationServiceRequest, PdpRequest,
  PdpResponse, Provider, ProviderLevelFieldRecord, create_error_response_with_code,
}
use opendif_core.Orchestration.Permitted.{IsPermitted, federate_query-IsPermitted}
use opendif_core.Orchestration.Served.{IsServedBy, federate_query-IsServedBy}
use opendif_core.Policy.Decision.{decide, judge, judge_fields, no_findings, to_response}
use opendif_core.Policy.Models.{PolicyMetadata, index_metadata}

abbrev nic_field : ProviderLevelFieldRecord
nic_field = record { service_key = "drp"; schema_id = "s1"; field_path = "person.nic" }

abbrev nic_request : FederationServiceRequest
nic_request = record {
  service_key = "drp";
  schema_id = "s1";
  graphql_request = "{ person { nic } }";
}

abbrev drp : Provider
drp = record { service_url = "http://drp"; service_key = "drp"; schema_id = "s1" }

abbrev response : (authorized expired consent_needed : Bool) → PdpResponse
response authorized expired consent_needed = record {
  app_authorized = authorized;
  unauthorized_fields = [];
  app_access_expired = expired;
  expired_fields = [];
  app_requires_owner_consent = consent_needed;
  consent_required_fields =
      record {
        field_name = "person.nic";
        schema_id = "s1";
        display_name = none;
        description = none;
        owner = none;
      }
      ∷ [];
}

abbrev pdp_gives : PdpResponse → PdpRequest → Result String (Option PdpResponse)
pdp_gives r q = ok (some r)

abbrev ce_gives : String → CeCreateConsentRequest → Result String (Option CeConsentResponse)
ce_gives status q =
    ok (some (record { consent_id = "c1"; status = status; consent_portal_url = none }))

abbrev build : List ProviderLevelFieldRecord → Result ErrorReply (List FederationServiceRequest)
build fields = ok (nic_request ∷ [])

abbrev ask : (PdpRequest → Result String (Option PdpResponse)) → String → Answer × List Event
ask pdp status =
    federate_query "http://pdp" "http://ce" pdp (ce_gives status) build (drp ∷ []) "app1"
      (nic_field ∷ []) (some "o1@x" ∷ [])

service : Unit {0}
unfolding federate_query federate_allowed federate_owned dispatch check_policy check_consent
    require_consent judge_reply judge_response judge_consent data_owner required_fields_of
    consent_fields get_provider perform_federation new_provider_handler decide judge judge_fields
    index_metadata join_colon lookup insert read_fields read_records
service = tt

approved_test : ask (pdp_gives (response true false true)) "approved" ≡ (
  federated (nic_request ∷ []),
  asked_pdp (pdp_request "app1" (nic_field ∷ []))
      ∷ asked_ce (consent_request "app1" "o1@x" (response true false true))
      ∷ queried nic_request drp
      ∷ [],
)
unfolding service
approved_test = refl

pending_test : ask (pdp_gives (response true false true)) "pending" ≡ (
  refused (create_error_response_with_code "Consent not approved" "CE_NOT_APPROVED"),
  asked_pdp (pdp_request "app1" (nic_field ∷ []))
      ∷ asked_ce (consent_request "app1" "o1@x" (response true false true))
      ∷ [],
)
unfolding service
pending_test = refl

-- Without the URL of a policy decision point, no check is made.
open_test :
    federate_query "" ""
      (pdp_gives (response false true true))
      (ce_gives "pending")
      build
      (drp ∷ [])
      "app1"
      (nic_field ∷ [])
      (some "o1@x" ∷ [])
    ≡ (federated (nic_request ∷ []), queried nic_request drp ∷ [])
unfolding service
open_test = refl

handler_test : new_provider_handler (drp ∷ record drp { service_key = "" } ∷ []) ≡ drp ∷ []
unfolding service
handler_test = refl

federate_query-IsPermitted_example :
    IsPermitted "http://pdp"
      (pdp_gives (response true false true))
      (ce_gives "approved")
      "app1"
      (nic_field ∷ [])
      (some "o1@x" ∷ [])
unfolding service
federate_query-IsPermitted_example =
    federate_query-IsPermitted "http://pdp" "http://ce" (pdp_gives (response true false true))
      (ce_gives "approved") build (drp ∷ []) "app1" (nic_field ∷ []) {q = nic_request} {p = drp}
      (some "o1@x" ∷ []) (Memᴰ.tail (Memᴰ.tail (Memᴰ.head refl)))

federate_query-IsServedBy_example :
    IsServedBy
      (build (nic_field ∷ []))
      (drp ∷ [])
      nic_request
      drp
      (ask (pdp_gives (response true false true)) "approved").0
unfolding service
federate_query-IsServedBy_example =
    federate_query-IsServedBy "http://pdp" "http://ce" (pdp_gives (response true false true))
      (ce_gives "approved") build (drp ∷ []) "app1" (nic_field ∷ []) {q = nic_request} {p = drp}
      (some "o1@x" ∷ []) (Memᴰ.tail (Memᴰ.tail (Memᴰ.head refl)))

federate_query-IsSent_example :
    ((ask (pdp_gives (response true false true)) "approved").0 ≡ federated (nic_request ∷ []))
    × IsSent (drp ∷ []) (nic_request ∷ []) (ask (pdp_gives (response true false true)) "approved").1
unfolding service
federate_query-IsSent_example =
    federate_query-IsSent "http://pdp" "http://ce" (pdp_gives (response true false true))
      (ce_gives "approved") build (drp ∷ []) "app1" (nic_field ∷ []) (some "o1@x" ∷ [])
      (response true false true) "o1@x" nic_request [] (eq_false→ne _ _ refl) refl refl refl refl
      (inr (
        refl,
        eq_false→ne _ _ refl,
        (record { consent_id = "c1"; status = "approved"; consent_portal_url = none }, refl, refl),
      ))
      refl

abbrev nic_row : PolicyMetadata
nic_row = record {
  id = "m1";
  schema_id = "s1";
  field_name = "person.nic";
  display_name = none;
  description = none;
  source = "primary";
  is_owner = true;
  access_control_type = "public";
  allow_list = ("app1", record { expires_at = 50; updated_at = 3 }) ∷ [];
  owner = none;
  created_at = 1;
  updated_at = 1;
}

abbrev all_clear : PdpResponse
all_clear = read_response (to_response no_findings)

decided_lem :
    (r : PdpResponse)
    → pdp_gives all_clear (pdp_request "app1" (nic_field ∷ [])) ≡ ok (some r)
    → IsDecided (nic_row ∷ []) (λ i. 50) (pdp_request "app1" (nic_field ∷ [])) r
unfolding service
decided_lem r h = let same : r ≡ all_clear = ground arith in (to_response no_findings, refl, same)

federate_query_authorized_example :
    IsOpen (nic_row ∷ []) (λ i. 50) (pdp_request "app1" (nic_field ∷ []))
unfolding service
federate_query_authorized_example =
    federate_query_authorized (nic_row ∷ []) (λ i. 50) "http://pdp" "http://ce"
      (pdp_gives all_clear) (ce_gives "pending") build (drp ∷ []) "app1" (nic_field ∷ [])
      (some "o1@x" ∷ []) {q = nic_request} {p = drp} (eq_false→ne _ _ refl) decided_lem
      (Memᴰ.tail (Memᴰ.head refl))
