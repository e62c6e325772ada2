-- ===== src/Orchestration/Query/Tests.antt =====
-- Runs of the walk over a query and of the builder, and the theorems at concrete inputs.
use Prim.Native.String.{◌++◌ as concat}
use opendif_core.Base.{
  Dict, Memᴰ, Option, Result, String, [], err, false, lookup, none, ok, refl, some, true, ℕ, ◌↔◌,
  ◌∷◌, ◌≡◌,
}
use opendif_core.Orchestration.Checks.{
  asked_pdp, check_consent, check_policy, consent_fields, data_owner, judge_consent, judge_reply,
  judge_response, pdp_request, queried, require_consent, required_fields_of,
}
use opendif_core.Orchestration.Federate.{
  dispatch, federate_allowed, federate_owned, federate_query, get_provider, perform_federation,
}
use opendif_core.Orchestration.Models.{
  CeConsentResponse, CeCreateConsentRequest, FederationServiceRequest, PdpRequest, PdpResponse,
  Provider,
}
use opendif_core.Orchestration.Query.Arguments.{
  attached, contains_arg_source, extract_all, extract_for, extract_required_arguments,
  find_required_arguments, left, provider_args, require_all, require_for,
}
use opendif_core.Orchestration.Query.Built.{asks, first_schema}
use opendif_core.Orchestration.Query.Collect.{
  Directive, FieldDefinition, ObjectDefinition, Operation, QuerySet, Schema, SchemaCollection,
  asked, extract, extract_with_array_info, field_directives, find_field_in, find_object_definition,
  named, nested_object, non_null, provider_field_map, provider_schema_collector, read_source,
  read_sources, source_infos, stop,
}
use opendif_core.Orchestration.Query.Least.{IsBehind, federate_request-IsBehind}
use opendif_core.Orchestration.Query.Paths.{has_path, is_start}
use opendif_core.Orchestration.Query.Request.{federate_collected, federate_request}
use opendif_core.Orchestration.Query.Samples.{
  birth_place_record, depth_first, full_name_record, mapping_of, sample_arg_map, sample_nic,
}
use opendif_core.Orchestration.Query.Segments.{is_path_prefix}
use opendif_core.Orchestration.Query.Sources.{
  IsSourceRecord, provider_schema_collector-IsSourceRecord,
}
use opendif_core.Orchestration.Query.Trees.{
  SelectionSet, Value, add_path, build_queries, end, join_dot, push_field, selected, split_on,
  string_value,
}
use opendif_core.Orchestration.Query.Variables.{
  Input, push_argument_value, push_variables, resolve, text,
}
use opendif_core.Policy.Models.{key}

service : Unit {0}
unfolding split_on join_dot push_field add_path build_queries has_path is_start is_path_prefix
    require_for require_all contains_arg_source extract_for extract_all attached left provider_args
    find_object_definition find_field_in source_infos field_directives nested_object
    extract_with_array_info extract read_source read_sources provider_field_map
    provider_schema_collector push_argument_value resolve push_variables federate_collected
    federate_request federate_query federate_allowed federate_owned dispatch perform_federation
    get_provider check_policy check_consent require_consent judge_reply judge_response judge_consent
    data_owner required_fields_of consent_fields first_schema asks lookup
service = tt

abbrev source_info : String → String → String → Directive
source_info key schema path = record {
  name = "sourceInfo";
  arguments =
      record { name = "providerKey"; value = string_value key }
      ∷ record { name = "schemaId"; value = string_value schema }
      ∷ record { name = "providerField"; value = string_value path }
      ∷ [];
}

abbrev full_name : FieldDefinition
full_name = record {
  name = "fullName";
  field_type = named "String";
  directives = source_info "drp" "s1" "person.fullName" ∷ [];
}

abbrev birth_place : FieldDefinition
birth_place = record {
  name = "birthPlace";
  field_type = named "String";
  directives = source_info "rgd" "s2" "birth.place" ∷ [];
}

abbrev person_info : FieldDefinition
person_info = record { name = "personInfo"; field_type = named "PersonInfo"; directives = [] }

abbrev strict_info : FieldDefinition
strict_info = record {
  name = "strictInfo";
  field_type = non_null (named "PersonInfo");
  directives = [];
}

abbrev query_object : ObjectDefinition
query_object = record { name = "Query"; fields = person_info ∷ strict_info ∷ [] }

abbrev person_object : ObjectDefinition
person_object = record { name = "PersonInfo"; fields = full_name ∷ birth_place ∷ [] }

abbrev schema : Schema
schema = none ∷ some query_object ∷ some person_object ∷ []

abbrev names : QuerySet
names = asked "fullName" [] [] stop (asked "birthPlace" [] [] stop stop)

abbrev operation_on : String → Operation
operation_on name = record {
  operation = "query";
  selection_set = asked name (sample_nic ∷ []) [] names stop;
  variable_definitions = "nic" ∷ [];
}

abbrev collected : SchemaCollection
collected = record {
  field_map = full_name_record ∷ birth_place_record ∷ [];
  arguments = sample_nic ∷ [];
  variable_definitions = "nic" ∷ [];
}

collects : provider_schema_collector schema (operation_on "personInfo" ∷ []) ≡ ok collected
unfolding service
collects = refl

-- Nothing below a field of a non-null type is collected.
collects_nothing :
    provider_schema_collector schema (operation_on "strictInfo" ∷ [])
    ≡ ok (record { field_map = []; arguments = sample_nic ∷ []; variable_definitions = "nic" ∷ [] })
unfolding service
collects_nothing = refl

extracts :
    extract_required_arguments
      (find_required_arguments collected.field_map sample_arg_map)
      collected.arguments
    ≡ record { mapping = mapping_of 1 "drp" "s1" "person"; argument = sample_nic }
      ∷ record { mapping = mapping_of 2 "rgd" "s2" "birth"; argument = sample_nic }
      ∷ []
unfolding service
extracts = refl

abbrev print : String → SelectionSet → String
print name end = name
print name (selected n args children others) = concat name (concat " " n)

abbrev get_value : Value → Option String
get_value (string_value s) = some s
get_value v = none

abbrev pdp : PdpRequest → Result String (Option PdpResponse)
pdp r = ok (
    some (record {
      app_authorized = true;
      unauthorized_fields = [];
      app_access_expired = false;
      expired_fields = [];
      app_requires_owner_consent = false;
      consent_required_fields = [];
    }))

abbrev ce : CeCreateConsentRequest → Result String (Option CeConsentResponse)
ce r = err "down"

abbrev drp : Provider
drp = record { service_url = "http://drp"; service_key = "drp"; schema_id = "s1" }

abbrev drp_request : FederationServiceRequest
drp_request = record { service_key = "drp"; schema_id = "s1"; graphql_request = "Querydrp person" }

abbrev variables : Option (Dict (Input ℕ ℕ))
variables = some (("nic", text "199") ∷ [])

abbrev rune_text : ℕ → String
rune_text n = "?"

asks_drp :
    (federate_request depth_first print get_value {Int = ℕ} {Float = ℕ} rune_text rune_text
      "http://pdp" "" pdp ce
      (drp ∷ [])
      sample_arg_map
      "app1"
      schema
      (operation_on "personInfo" ∷ [])
      variables).1
    ≡ asked_pdp (pdp_request "app1" collected.field_map) ∷ queried drp_request drp ∷ []
unfolding service
asks_drp = refl

federate_request-IsBehind_example :
    IsBehind depth_first print get_value {Int = ℕ} {Float = ℕ} rune_text rune_text "http://pdp" ""
      pdp ce
      (drp ∷ [])
      sample_arg_map
      "app1"
      schema
      (operation_on "personInfo")
      variables
      drp_request
unfolding service
federate_request-IsBehind_example =
    federate_request-IsBehind depth_first print get_value {Int = ℕ} {Float = ℕ} rune_text rune_text
      "http://pdp" "" pdp ce (drp ∷ []) sample_arg_map "app1" schema (operation_on "personInfo")
      variables drp_request {p = drp} (Memᴰ.tail (Memᴰ.head refl))

provider_schema_collector-IsSourceRecord_example :
    Memᴰ birth_place_record collected.field_map
    ↔ IsSourceRecord schema (operation_on "personInfo").selection_set birth_place_record
provider_schema_collector-IsSourceRecord_example =
    provider_schema_collector-IsSourceRecord schema (operation_on "personInfo") collected
      birth_place_record collects
