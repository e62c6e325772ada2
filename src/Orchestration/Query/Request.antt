-- ===== src/Orchestration/Query/Request.antt =====
-- FederateQuery from the parsed query and the schema on:
-- exchange/orchestration-engine/federator/federator.go. `get_value` is the text that a value's
-- GetValue gives, where it is one.
use opendif_core.Base.{Dict, List, Option, Result, String, [], err, map, ok}
use opendif_core.Orchestration.Checks.{Event}
use opendif_core.Orchestration.Federate.{Answer, federate_query, refused}
use opendif_core.Orchestration.Models.{
  CeConsentResponse, CeCreateConsentRequest, PdpRequest, PdpResponse, Provider,
}
use opendif_core.Orchestration.Query.Arguments.{
  ArgMapping, ArgSource, Visitor, extract_required_arguments, find_required_arguments,
  query_builder,
}
use opendif_core.Orchestration.Query.Collect.{
  Operation, Schema, SchemaCollection, provider_schema_collector,
}
use opendif_core.Orchestration.Query.Trees.{SelectionSet, Value}
use opendif_core.Orchestration.Query.Variables.{Input, push_variables}

abbrev pub extracted_args : SchemaCollection → List (Option ArgMapping) → List ArgSource
extracted_args c arg_map =
    extract_required_arguments (find_required_arguments c.field_map arg_map) c.arguments

module _ (visitor : Visitor) (print : String → SelectionSet → String)
    (get_value : Value → Option String) {Int Float : Type 0} (rune_text : Int → String)
    (format_float : Float → String) (pdp_url ce_url : String)
    (pdp : PdpRequest → Result String (Option PdpResponse))
    (ce : CeCreateConsentRequest → Result String (Option CeConsentResponse))
    (providers : List Provider) (arg_map : List (Option ArgMapping)) where
  -- the arguments of the request with its variables in them
  abbrev pub request_args : Option (Dict (Input Int Float)) → SchemaCollection → List ArgSource
  request_args variables c =
      push_variables rune_text format_float variables c.variable_definitions
        (extracted_args c arg_map)

  unfoldable pub federate_collected :
      String → Option (Dict (Input Int Float)) → SchemaCollection → Answer × List Event
  federate_collected application_id variables c =
      let args = request_args variables c in
      federate_query pdp_url ce_url pdp ce (λ fields. ok (query_builder visitor print args fields))
        providers application_id c.field_map (map (λ a. get_value a.argument.value) args)

  unfoldable pub federate_request :
      String → Schema → List Operation → Option (Dict (Input Int Float)) → Answer × List Event
  federate_request application_id schema query variables =
      elim (provider_schema_collector schema query) [
        | err e ↦ (refused e, [])
        | ok c ↦ federate_collected application_id variables c
      ]
