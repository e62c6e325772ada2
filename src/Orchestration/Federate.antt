-- ===== src/Orchestration/Federate.antt =====
-- FederateQuery after the schema has been collected, and performFederation:
-- exchange/orchestration-engine/federator/federator.go. `build` is what QueryBuilder gives for the
-- collected fields. The goroutines of performFederation run at once: its events are in the order
-- in which the loop starts them.
use opendif_core.Base.{
  List, Option, Result, String, [], err, if◌then◌else◌, is_empty, none, ok, some, ◌&&◌, ◌++◌, ◌==◌,
  ◌∷◌,
}
use opendif_core.Orchestration.Checks.{Event, check_consent, check_policy, data_owner, queried}
use opendif_core.Orchestration.Models.{
  CeConsentResponse, CeCreateConsentRequest, ErrorReply, FederationServiceRequest, PdpRequest,
  PdpResponse, Provider, ProviderLevelFieldRecord,
}

-- GetProvider
unfoldable pub get_provider : String → String → List Provider → Option Provider
get_provider service_key schema_id [] = none
get_provider service_key schema_id (p ∷ ps) =
    if p.service_key == service_key && p.schema_id == schema_id
    then some p
    else get_provider service_key schema_id ps

-- NewProviderHandler
unfoldable pub new_provider_handler : List Provider → List Provider
new_provider_handler [] = []
new_provider_handler (p ∷ ps) =
    let rest = new_provider_handler ps in if p.service_key == "" then rest else p ∷ rest

-- AddProvider
abbrev pub add_provider : Provider → List Provider → List Provider
add_provider p ps = ps ++ p ∷ []

-- the requests that performFederation sends
unfoldable pub perform_federation : List Provider → List FederationServiceRequest → List Event
perform_federation providers [] = []
perform_federation providers (r ∷ rs) =
    let rest = perform_federation providers rs in
    elim (get_provider r.service_key r.schema_id providers) [
      | none ↦ rest
      | some p ↦ queried r p ∷ rest
    ]

pub data Answer : Type 0 where
  refused : ErrorReply → Answer
  federated : List FederationServiceRequest → Answer

-- from QueryBuilder on
unfoldable pub dispatch :
    List Provider → Result ErrorReply (List FederationServiceRequest) → Answer × List Event
dispatch providers (err e) = (refused e, [])
dispatch providers (ok rs) =
    if is_empty rs
    then (
      refused (record { message = "No valid service queries found in the request"; code = none }),
      [],
    )
    else (federated rs, perform_federation providers rs)

module _ (pdp_url ce_url : String) (pdp : PdpRequest → Result String (Option PdpResponse))
    (ce : CeCreateConsentRequest → Result String (Option CeConsentResponse))
    (build : List ProviderLevelFieldRecord → Result ErrorReply (List FederationServiceRequest))
    (providers : List Provider) where
  -- from the consent check on
  unfoldable pub federate_owned :
      String → List ProviderLevelFieldRecord → Option PdpResponse → String → Answer × List Event
  federate_owned application_id fields resp owner =
      let (refusal, calls) = check_consent ce_url ce application_id owner resp in
      elim refusal [
        | some e ↦ (refused e, calls)
        | none ↦ let (answer, later) = dispatch providers (build fields) in (answer, calls ++ later)
      ]

  -- from the data owner's id on
  unfoldable pub federate_allowed :
      String
      → List ProviderLevelFieldRecord
      → List (Option String)
      → Option PdpResponse
      → Answer × List Event
  federate_allowed application_id fields args resp = elim (data_owner args) [
    | err e ↦ (refused e, [])
    | ok owner ↦ federate_owned application_id fields resp owner
  ]

  unfoldable pub federate_query :
      String → List ProviderLevelFieldRecord → List (Option String) → Answer × List Event
  federate_query application_id fields args =
      let (verdict, calls) = check_policy pdp_url pdp application_id fields in
      elim verdict [
        | err e ↦ (refused e, calls)
        | ok resp ↦
            let (answer, later) = federate_allowed application_id fields args resp in
            (answer, calls ++ later)
      ]
