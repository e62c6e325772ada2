-- ===== src/Orchestration/Query/Trees.antt =====
-- Selection sets and BuildProviderLevelQuery: exchange/orchestration-engine/federator/builder.go.
-- An ast.SelectionSet is `selected`, its fields one after the other, each with its arguments and
-- the fields below it; `end` is an empty one and nil alike.
use Prim.Native.String.{◌++◌ as concat}
use opendif_core.Base.{
  Bool, List, String, [], elem, false, if◌then◌else◌, true, ◌&&◌, ◌++◌, ◌==◌, ◌∷◌,
}
use opendif_core.Orchestration.Models.{ProviderLevelFieldRecord}

-- ast.Value; `other_value` is an enum, a list or an object
pub data Value : Type 0 where
  string_value : String → Value
  int_value : String → Value
  float_value : String → Value
  boolean_value : Bool → Value
  variable : String → Value
  other_value : Value

-- ast.Argument
pub record Argument : Type 0 where
  pub name : String
  pub value : Value

pub data SelectionSet : Type 0 where
  end : SelectionSet
  selected : String → List Argument → SelectionSet → SelectionSet → SelectionSet

-- strings.Split(path, sep) for a separator of one character: the first segment and the others
unfoldable pub split_on : String → String → String × List String
split_on sep String.[] = ("", [])
split_on sep (String.◌∷◌ c s) =
    let (segment, segments) = split_on sep s in
    if String.◌∷◌ c String.[] == sep
    then ("", segment ∷ segments)
    else (String.◌∷◌ c segment, segments)

abbrev pub split_dot : String → String × List String
split_dot path = split_on "." path

-- strings.Join(segments, ".")
unfoldable pub join_dot : String → List String → String
join_dot segment [] = segment
join_dot segment (x ∷ xs) = concat segment (concat "." (join_dot x xs))

-- pushFieldToAst: its path is the first segment and the others
unfoldable pub push_field : String → List String → SelectionSet → SelectionSet
push_field current [] end = selected current [] end end
push_field current (x ∷ xs) end = selected current [] (push_field x xs end) end
push_field current [] (selected n args children others) = elim (n == current) [
  | true ↦ selected n args children others
  | false ↦ selected n args children (push_field current [] others)
]
push_field current (x ∷ xs) (selected n args children others) = elim (n == current) [
  | true ↦ selected n args (push_field x xs children) others
  | false ↦ selected n args children (push_field current (x ∷ xs) others)
]

-- FederationServiceAST: the provider, and the name and the fields of its query
pub record ProviderQuery : Type 0 where
  pub service_key : String
  pub schema_id : String
  pub operation_name : String
  pub selections : SelectionSet

abbrev pub open_query : ProviderLevelFieldRecord → ProviderQuery
open_query f = record {
  service_key = f.service_key;
  schema_id = f.schema_id;
  operation_name = concat "Query" f.service_key;
  selections = end;
}

abbrev pub push_path : ProviderLevelFieldRecord → ProviderQuery → ProviderQuery
push_path f q =
    let (current, rest) = split_dot f.field_path in
    record {
      service_key = q.service_key;
      schema_id = q.schema_id;
      operation_name = q.operation_name;
      selections = push_field current rest q.selections;
    }

-- the query of the field's provider and schema gets the path
unfoldable pub add_path : ProviderLevelFieldRecord → List ProviderQuery → List ProviderQuery
add_path f [] = []
add_path f (q ∷ queries) =
    if q.service_key == f.service_key && q.schema_id == f.schema_id
    then push_path f q ∷ queries
    else q ∷ add_path f queries

-- the loop, with the service keys that have a query
unfoldable pub build_queries :
    List ProviderLevelFieldRecord → List String → List ProviderQuery → List ProviderQuery
build_queries [] added queries = queries
build_queries (f ∷ fs) added queries =
    let (keys, opened) =
      if elem f.service_key added
      then (added, queries)
      else (added ++ f.service_key ∷ [], queries ++ open_query f ∷ []) in
    build_queries fs keys (add_path f opened)

abbrev pub build_provider_level_query : List ProviderLevelFieldRecord → List ProviderQuery
build_provider_level_query fields = build_queries fields [] []
