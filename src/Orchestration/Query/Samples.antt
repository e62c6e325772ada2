-- ===== src/Orchestration/Query/Samples.antt =====
-- Data for the tests of the queries.
use opendif_core.Base.{List, Option, String, [], none, refl, some, ℕ, ◌∷◌}
use opendif_core.Orchestration.Models.{ProviderLevelFieldRecord}
use opendif_core.Orchestration.Query.Arguments.{ArgMapping, ArgSource, Visitor}
use opendif_core.Orchestration.Query.Trees.{
  Argument, SelectionSet, end, selected, string_value, variable,
}
use opendif_core.Policy.Models.{key}

abbrev pub walk :
    (List String → String → List Argument → List Argument × List String)
    → (List String → List String)
    → List String
    → SelectionSet
    → SelectionSet × List String
walk enter leave path end = (end, path)
walk enter leave path (selected n args children others) =
    let at = enter path n args in
    let below = walk enter leave at.1 children in
    let after = walk enter leave (leave below.1) others in
    (selected n at.0 below.0 after.0, after.1)

abbrev pub depth_first : Visitor
depth_first = record {
  visit = walk;
  visit_end = λ enter leave path. refl;
  visit_selected = λ enter leave path n args children others. refl;
}

abbrev pub sample_nic : Argument
sample_nic = record { name = "nic"; value = variable "nic" }

abbrev pub full_name_record : ProviderLevelFieldRecord
full_name_record = record { service_key = "drp"; schema_id = "s1"; field_path = "person.fullName" }

abbrev pub birth_place_record : ProviderLevelFieldRecord
birth_place_record = record { service_key = "rgd"; schema_id = "s2"; field_path = "birth.place" }

abbrev pub mapping_of : ℕ → String → String → String → ArgMapping
mapping_of i key schema path = record {
  identity = i;
  target_arg_name = "nic";
  provider_key = key;
  schema_id = schema;
  source_arg_path = "personInfo-nic";
  target_arg_path = path;
}

abbrev pub sample_arg_map : List (Option ArgMapping)
sample_arg_map =
    some (mapping_of 1 "drp" "s1" "person") ∷ none ∷ some (mapping_of 2 "rgd" "s2" "birth") ∷ []

abbrev pub sample_source : ArgSource
sample_source = record {
  mapping = mapping_of 2 "drp" "s1" "vehicle";
  argument = record { name = "nic"; value = string_value "199" };
}
