-- ===== src/Orchestration/Checks.antt =====
-- The checks of FederateQuery before it asks a provider:
-- exchange/orchestration-engine/federator/federator.go.
-- What the two services answer over the network are the parameters `pdp` and `ce`: `err` is a call
-- that fails, `ok none` a call that gives a nil response.
use Prim.Native.String.{◌++◌ as concat}
use opendif_core.Base.{
  List, Option, Result, String, [], err, if◌then◌else◌, is_empty, none, not, ok, some, ◌==◌, ◌∷◌,
}
use opendif_core.Orchestration.Models.{
  CeConsentField, CeConsentResponse, CeCreateConsentRequest, ConsentRequiredField, ErrorReply,
  FederationServiceRequest, PdpRequest, PdpResponse, Provider, ProviderLevelFieldRecord,
  RequiredField, ce_status_approved, ce_type_realtime, create_error_response_with_code,
  owner_citizen,
}

-- the calls that FederateQuery makes, in order
pub data Event : Type 0 where
  asked_pdp : PdpRequest → Event
  asked_ce : CeCreateConsentRequest → Event
  queried : FederationServiceRequest → Provider → Event

unfoldable pub required_fields_of : List ProviderLevelFieldRecord → List RequiredField
required_fields_of [] = []
required_fields_of (f ∷ fs) =
    record { field_name = f.field_path; schema_id = f.schema_id } ∷ required_fields_of fs

abbrev pub pdp_request : String → List ProviderLevelFieldRecord → PdpRequest
pdp_request application_id fields = record {
  app_id = application_id;
  required_fields = required_fields_of fields;
}

-- the tests on the response of the policy decision point
unfoldable pub judge_response : PdpResponse → Result ErrorReply (Option PdpResponse)
judge_response r =
    if not r.app_authorized
    then err (create_error_response_with_code "Access denied" "PDP_NOT_ALLOWED")
    else if r.app_access_expired
    then err (create_error_response_with_code "Access expired" "PDP_NOT_ALLOWED")
    else ok (some r)

-- the value of the first extracted argument, which is `none` where it is not a string
unfoldable pub data_owner : List (Option String) → Result ErrorReply String
data_owner [] =
    err (create_error_response_with_code "Data Owner ID argument is missing" "MISSING_IDENTIFIER")
data_owner (val ∷ vals) =
    let missing_owner = err (
      create_error_response_with_code "Data Owner ID argument is missing or invalid"
        "MISSING_IDENTIFIER") in
    elim val [ none ↦ missing_owner | some s ↦ if s == "" then missing_owner else ok s ]

unfoldable pub consent_fields : List ConsentRequiredField → List CeConsentField
consent_fields [] = []
consent_fields (f ∷ fs) =
    record {
      field_name = f.field_name;
      schema_id = f.schema_id;
      display_name = f.display_name;
      description = f.description;
      owner = elim f.owner [ some o ↦ o | none ↦ owner_citizen ];
    }
    ∷ consent_fields fs

abbrev pub consent_request : String → String → PdpResponse → CeCreateConsentRequest
consent_request application_id owner_email r = record {
  app_id = application_id;
  app_name = none;
  consent_requirement = record {
    owner = owner_citizen;
    owner_id = owner_email;
    owner_email = owner_email;
    fields = consent_fields r.consent_required_fields;
  };
  grant_duration = none;
  consent_type = some ce_type_realtime;
}

-- the test on the response of the consent engine; `none` lets the query go on
unfoldable pub judge_consent : Result String (Option CeConsentResponse) → Option ErrorReply
judge_consent (err e) = some (create_error_response_with_code "CE request failed" "CE_ERROR")
judge_consent (ok none) =
    some (create_error_response_with_code "Failed to get response from CE" "CE_NO_RESPONSE")
judge_consent (ok (some c)) =
    if c.status == ce_status_approved
    then none
    else some (create_error_response_with_code "Consent not approved" "CE_NOT_APPROVED")

unfoldable pub judge_reply :
    Result String (Option PdpResponse) → Result ErrorReply (Option PdpResponse)
judge_reply (err e) =
    err (create_error_response_with_code (concat "Authorization check failed: " e) "PDP_ERROR")
judge_reply (ok none) =
    err (create_error_response_with_code "No response from authorization service" "PDP_NO_RESPONSE")
judge_reply (ok (some r)) = judge_response r

module _ (pdp_url : String) (pdp : PdpRequest → Result String (Option PdpResponse)) where
  -- the policy check; without a URL there is none
  unfoldable pub check_policy :
      String → List ProviderLevelFieldRecord → Result ErrorReply (Option PdpResponse) × List Event
  check_policy application_id fields = if pdp_url == "" then (ok none, []) else (
    judge_reply (pdp (pdp_request application_id fields)),
    asked_pdp (pdp_request application_id fields) ∷ [],
  )

module _ (ce_url : String)
    (ce : CeCreateConsentRequest → Result String (Option CeConsentResponse)) where
  -- the consent check, where the policy decision point asks for one
  unfoldable pub require_consent : String → String → PdpResponse → Option ErrorReply × List Event
  require_consent application_id owner r =
      if is_empty r.consent_required_fields
      then (
        some (
            create_error_response_with_code
              "Invalid PDP response: consent required but no fields specified" "PDP_ERROR"),
        [],
      )
      else if ce_url == ""
      then (
        some (
            create_error_response_with_code "Consent required but consent engine not available"
              "CE_ERROR"),
        [],
      )
      else (
        judge_consent (ce (consent_request application_id owner r)),
        asked_ce (consent_request application_id owner r) ∷ [],
      )

  unfoldable pub check_consent :
      String → String → Option PdpResponse → Option ErrorReply × List Event
  check_consent application_id owner none = (none, [])
  check_consent application_id owner (some r) =
      if r.app_requires_owner_consent then require_consent application_id owner r else (none, [])
