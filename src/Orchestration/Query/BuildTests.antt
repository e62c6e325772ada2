-- ===== src/Orchestration/Query/BuildTests.antt =====
-- Runs of the builder and of the arguments, and their theorems at concrete inputs.
use opendif_core.Base.{List, Memᴰ, [], elem, map, refl, some, ◌↔◌, ◌∷◌, ◌≡◌}
use opendif_core.Orchestration.Models.{ProviderLevelFieldRecord}
use opendif_core.Orchestration.Query.Arguments.{
  attached, contains_arg_source, find_required_arguments, left, push_arguments, require_all,
  require_for,
}
use opendif_core.Orchestration.Query.Asked.{
  build_provider_level_query-asks, build_provider_level_query-first_schema,
}
use opendif_core.Orchestration.Query.Attached.{at_paths, push_arguments-at_paths}
use opendif_core.Orchestration.Query.Built.{asks, first_schema}
use opendif_core.Orchestration.Query.Paths.{has_path, is_start}
use opendif_core.Orchestration.Query.Required.{any_wants, find_required_arguments-wants}
use opendif_core.Orchestration.Query.Samples.{
  birth_place_record, depth_first, full_name_record, mapping_of, sample_arg_map, sample_source,
}
use opendif_core.Orchestration.Query.Segments.{is_path_prefix, is_path_prefix-is_start}
use opendif_core.Orchestration.Query.Trees.{
  ProviderQuery, add_path, build_provider_level_query, build_queries, end, join_dot, push_field,
  selected, split_on,
}

service : Unit {0}
unfolding split_on join_dot push_field add_path build_queries has_path is_start is_path_prefix
    require_for require_all contains_arg_source attached left first_schema asks
service = tt

-- Two providers whose arguments have one target path: the second gets none.
drops_argument :
    find_required_arguments
      (full_name_record
        ∷ record { service_key = "rgd"; schema_id = "s2"; field_path = "person.place" }
        ∷ [])
      (some (mapping_of 1 "drp" "s1" "person") ∷ some (mapping_of 2 "rgd" "s2" "person") ∷ [])
    ≡ mapping_of 1 "drp" "s1" "person" ∷ []
unfolding service
drops_argument = refl

-- The second field at the top gets no argument for its path.
second_field :
    push_arguments depth_first
      (sample_source ∷ [])
      (selected "person" [] end (selected "vehicle" [] end end))
    ≡ selected "person" [] end (selected "vehicle" [] end end)
unfolding service
second_field = refl

-- Three fields, the last of a schema that is not the first of its service key.
abbrev three_fields : List ProviderLevelFieldRecord
three_fields =
    full_name_record
    ∷ birth_place_record
    ∷ record { service_key = "drp"; schema_id = "s9"; field_path = "vehicle.plate" }
    ∷ []

abbrev drp_query : ProviderQuery
drp_query = record {
  service_key = "drp";
  schema_id = "s1";
  operation_name = "Querydrp";
  selections = selected "person" [] (selected "fullName" [] end end) end;
}

builds :
    build_provider_level_query three_fields
    ≡ drp_query
      ∷ record {
        service_key = "rgd";
        schema_id = "s2";
        operation_name = "Queryrgd";
        selections = selected "birth" [] (selected "place" [] end end) end;
      }
      ∷ []
unfolding service
builds = refl

build_provider_level_query-asks_example :
    has_path "person" [] drp_query.selections ≡ asks "drp" "s1" "person" [] three_fields
unfolding service
build_provider_level_query-asks_example =
    build_provider_level_query-asks three_fields drp_query "person" [] (Memᴰ.head refl)

build_provider_level_query-first_schema_example :
    ((q : ProviderQuery) × Memᴰ q (build_provider_level_query three_fields)
      × (q.service_key ≡ "drp")
      × (q.schema_id ≡ "s9"))
    ↔ (first_schema "drp" three_fields ≡ some "s9")
build_provider_level_query-first_schema_example =
    build_provider_level_query-first_schema three_fields "drp" "s9"

is_path_prefix-is_start_example :
    is_path_prefix "personal.id" "person" ≡ is_start "person" [] "personal" ("id" ∷ [])
unfolding service
is_path_prefix-is_start_example = is_path_prefix-is_start "personal.id" "person"

push_arguments-at_paths_example :
    push_arguments depth_first
      (sample_source ∷ [])
      (selected "person" [] end (selected "vehicle" [] end end))
    ≡ selected "person"
        (attached (sample_source ∷ []) "person")
        end
        (at_paths (sample_source ∷ []) ("person" ∷ []) (selected "vehicle" [] end end))
unfolding at_paths
push_arguments-at_paths_example =
    push_arguments-at_paths depth_first (sample_source ∷ []) "person" [] end
      (selected "vehicle" [] end end)

find_required_arguments-wants_example :
    elem "birth"
      (map (λ a. a.target_arg_path) (find_required_arguments three_fields sample_arg_map))
    ≡ any_wants three_fields "birth" sample_arg_map
find_required_arguments-wants_example =
    find_required_arguments-wants three_fields "birth" sample_arg_map
