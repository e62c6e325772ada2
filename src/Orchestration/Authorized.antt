-- ===== src/Orchestration/Authorized.antt =====
-- FederateQuery together with the policy decision point that answers it: the request and the
-- response cross the network as JSON, whose names are the same on both sides
-- (exchange/orchestration-engine/policy/dtos.go,
-- exchange/policy-decision-point/v1/models/dtos.go).
use opendif_core.Base.{
  List, Memᴰ, Option, Result, String, [], false, none, ok, some, true, ℕ, ◌∷◌, ◌≡◌, ◌≢◌,
}
use opendif_core.Orchestration.Checks.{pdp_request, queried}
use opendif_core.Orchestration.Federate.{federate_query}
use opendif_core.Orchestration.Models.{
  CeConsentResponse, CeCreateConsentRequest, ConsentRequiredField, ErrorReply,
  FederationServiceRequest, PdpRequest, PdpResponse, Provider, ProviderLevelFieldRecord,
  RequiredField,
}
use opendif_core.Orchestration.Passed.{IsAllowed}
use opendif_core.Orchestration.Permitted.{federate_query-IsPermitted}
use opendif_core.Policy.Decided.{decide_flags}
use opendif_core.Policy.Decision.{decide}
use opendif_core.Policy.Models.{
  FieldRef, PolicyDecisionRequest, PolicyDecisionResponse, PolicyDecisionResponseFieldRecord,
  PolicyMetadata, index_metadata,
}
use opendif_core.Policy.Verdicts.{Each, HasNotLapsed, IsListed}

-- the request as the policy decision point reads it
unfoldable pub read_fields : List RequiredField → List FieldRef
read_fields [] = []
read_fields (f ∷ fs) =
    record { field_name = f.field_name; schema_id = f.schema_id } ∷ read_fields fs

abbrev pub read_request : PdpRequest → PolicyDecisionRequest
read_request q = record {
  application_id = q.app_id;
  required_fields = read_fields q.required_fields;
}

-- the response as the orchestration engine reads it
unfoldable pub read_records : List PolicyDecisionResponseFieldRecord → List ConsentRequiredField
read_records [] = []
read_records (f ∷ fs) =
    record {
      field_name = f.field_name;
      schema_id = f.schema_id;
      display_name = f.display_name;
      description = f.description;
      owner = f.owner;
    }
    ∷ read_records fs

abbrev pub read_response : PolicyDecisionResponse → PdpResponse
read_response d = record {
  app_authorized = d.app_authorized;
  unauthorized_fields = read_records d.unauthorized_fields;
  app_access_expired = d.app_access_expired;
  expired_fields = read_records d.expired_fields;
  app_requires_owner_consent = d.app_requires_owner_consent;
  consent_required_fields = read_records d.consent_required_fields;
}

module _ (rows : List PolicyMetadata) (now : ℕ → ℕ) where
  -- The response is what GetPolicyDecision gives for the request, over the rows and the clock.
  abbrev pub IsDecided : PdpRequest → PdpResponse → Type 0
  IsDecided q r =
      (d : PolicyDecisionResponse) × (decide rows now (read_request q) ≡ ok d)
      × (r ≡ read_response d)

  -- Every field of the request is one that the application may read: it is on the allow list, and
  -- its entry has not ended.
  abbrev pub IsOpen : PdpRequest → Type 0
  IsOpen q =
      Each (index_metadata rows []) (λ t pm. IsListed q.app_id pm) now 0
        (read_fields q.required_fields)
      × Each (index_metadata rows []) (HasNotLapsed q.app_id) now 0 (read_fields q.required_fields)

  decided-IsOpen :
      (q : PdpRequest) (r : PdpResponse)
      → IsDecided q r
      → r.app_authorized ≡ true
      → r.app_access_expired ≡ false
      → IsOpen q
  decided-IsOpen q r (d, h, same) a x =
      let (on_list, not_ended) = decide_flags rows now (read_request q) h in
      let authorized : d.app_authorized ≡ true = rw same at a in
      let current : d.app_access_expired ≡ false = rw same at x in
      (on_list.0 authorized, not_ended.0 current)

-- If the orchestration engine has the URL of a policy decision point, which answers as
-- GetPolicyDecision does, and FederateQuery sends a request to a provider, then the application is
-- on the allow list of the metadata of every collected field, with an entry that has not ended at
-- the reading of the clock for that field.
pub federate_query_authorized :
    (rows : List PolicyMetadata) (now : ℕ → ℕ) (pdp_url ce_url : String)
    (pdp : PdpRequest → Result String (Option PdpResponse))
    (ce : CeCreateConsentRequest → Result String (Option CeConsentResponse))
    (build : List ProviderLevelFieldRecord → Result ErrorReply (List FederationServiceRequest))
    (providers : List Provider) (app : String) (fields : List ProviderLevelFieldRecord)
    (args : List (Option String)) {q : FederationServiceRequest} {p : Provider}
    → pdp_url ≢ ""
    → ((r : PdpResponse)
        → pdp (pdp_request app fields) ≡ ok (some r)
        → IsDecided rows now (pdp_request app fields) r)
    → Memᴰ (queried q p) (federate_query pdp_url ce_url pdp ce build providers app fields args).1
    → IsOpen rows now (pdp_request app fields)
federate_query_authorized rows now pdp_url ce_url pdp ce build providers app fields args {q} {p} set
      answers m =
    let (o, allowed, owned) =
      federate_query-IsPermitted pdp_url ce_url pdp ce build providers app fields args m in
    split o allowed
  where
    split :
        (o : Option PdpResponse)
        → IsAllowed pdp_url pdp (pdp_request app fields) o
        → IsOpen rows now (pdp_request app fields)
    split none unset = absurd (set unset)
    split (some r) (answered, a, x) =
        decided-IsOpen rows now (pdp_request app fields) r (answers r answered) a x
