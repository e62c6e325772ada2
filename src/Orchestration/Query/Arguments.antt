-- ===== src/Orchestration/Query/Arguments.antt =====
-- The arguments of a provider's query: exchange/orchestration-engine/federator/arghandler.go, and
-- QueryBuilder and PushVariablesFromVariableDefinition of federator/mapper.go.
-- The parser gives no argument without a name or a value.
use opendif_core.Base.{
  Bool, List, Option, String, [], elem, eqb, false, if◌then◌else◌, length, ltb, map, none, not,
  some, ℕ, ◌&&◌, ◌++◌, ◌==◌, ◌||◌, ◌∷◌, ◌≡◌,
}
use opendif_core.Orchestration.Models.{FederationServiceRequest, ProviderLevelFieldRecord}
use opendif_core.Orchestration.Query.Segments.{is_path_prefix}
use opendif_core.Orchestration.Query.Trees.{
  Argument, ProviderQuery, SelectionSet, build_provider_level_query, end, join_dot, selected,
  split_on,
}

-- pkg/graphql.ArgMapping; `identity` tells apart the pointers that the code compares
pub record ArgMapping : Type 0 where
  pub identity : ℕ
  pub target_arg_name : String
  pub provider_key : String
  pub schema_id : String
  pub source_arg_path : String
  pub target_arg_path : String

pub record ArgSource : Type 0 where
  pub mapping : ArgMapping
  pub argument : Argument

abbrev pub contains_arg : List ArgMapping → ArgMapping → Bool
contains_arg args target = elem target.target_arg_path (map (λ a. a.target_arg_path) args)

-- Does the field need the argument?
abbrev pub needs : ProviderLevelFieldRecord → ArgMapping → Bool
needs f arg =
    arg.provider_key == f.service_key
    && arg.schema_id == f.schema_id
    && is_path_prefix f.field_path arg.target_arg_path

-- the loop over the mappings for one field
unfoldable pub require_for :
    ProviderLevelFieldRecord → List (Option ArgMapping) → List ArgMapping → List ArgMapping
require_for f [] required = required
require_for f (none ∷ arg_map) required = require_for f arg_map required
require_for f (some arg ∷ arg_map) required =
    require_for f arg_map
      (if needs f arg && not (contains_arg required arg) then required ++ arg ∷ [] else required)

unfoldable pub require_all :
    List ProviderLevelFieldRecord → List (Option ArgMapping) → List ArgMapping → List ArgMapping
require_all [] arg_map required = required
require_all (f ∷ fs) arg_map required = require_all fs arg_map (require_for f arg_map required)

abbrev pub find_required_arguments :
    List ProviderLevelFieldRecord → List (Option ArgMapping) → List ArgMapping
find_required_arguments fields arg_map = require_all fields arg_map []

-- segments[len(segments)-1]
abbrev pub last_of : String → List String → String
last_of segment [] = segment
last_of segment (x ∷ xs) = last_of x xs

abbrev pub last_segment : String → String
last_segment path = let (segment, segments) = split_on "-" path in last_of segment segments

unfoldable pub contains_arg_source : List ArgSource → ArgMapping → Bool
contains_arg_source [] target = false
contains_arg_source (a ∷ args) target =
    eqb a.mapping.identity target.identity || contains_arg_source args target

-- the loop over the mappings for one argument
unfoldable pub extract_for : Argument → List ArgMapping → List ArgSource → List ArgSource
extract_for arg [] sources = sources
extract_for arg (m ∷ ms) sources = extract_for arg ms (
    if arg.name == last_segment m.source_arg_path && not (contains_arg_source sources m)
    then sources ++ record { mapping = m; argument = arg } ∷ []
    else sources)

unfoldable pub extract_all : List ArgMapping → List Argument → List ArgSource → List ArgSource
extract_all ms [] sources = sources
extract_all ms (arg ∷ arguments) sources = extract_all ms arguments (extract_for arg ms sources)

abbrev pub extract_required_arguments : List ArgMapping → List Argument → List ArgSource
extract_required_arguments arg_map arguments = extract_all arg_map arguments []

-- the arguments that Enter appends at a path
unfoldable pub attached : List ArgSource → String → List Argument
attached [] path = []
attached (a ∷ args) path =
    let rest = attached args path in
    if is_path_prefix a.mapping.target_arg_path path
    then record { name = a.mapping.target_arg_name; value = a.argument.value } ∷ rest
    else rest

-- the path that Enter leaves
abbrev pub entered : List String → String → List String
entered path name = path ++ name ∷ []

abbrev pub join_path : List String → String
join_path [] = ""
join_path (x ∷ xs) = join_dot x xs

abbrev pub drop_last : List String → List String
drop_last [] = []
drop_last (x ∷ []) = []
drop_last (x ∷ y ∷ ys) = x ∷ drop_last (y ∷ ys)

-- the path that Leave leaves
unfoldable pub left : List String → List String
left path = if ltb 1 (length path) then drop_last path else path

-- What Enter does at a field: the field's arguments and the path after it.
abbrev pub enter_field :
    List ArgSource → List String → String → List Argument → List Argument × List String
enter_field sources path name args =
    let path = entered path name in (args ++ attached sources (join_path path), path)

-- The walk of the graphql package: Enter at a field, the fields below it, Leave, the next field.
pub record Visitor : Type 0 where
  pub visit :
      (List String → String → List Argument → List Argument × List String)
      → (List String → List String)
      → List String
      → SelectionSet
      → SelectionSet × List String
  pub visit_end :
      (enter : List String → String → List Argument → List Argument × List String)
      (leave : List String → List String) (path : List String)
      → visit enter leave path end ≡ (end, path)
  pub visit_selected :
      (enter : List String → String → List Argument → List Argument × List String)
      (leave : List String → List String) (path : List String) (n : String) (args : List Argument)
      (children others : SelectionSet)
      → visit enter leave path (selected n args children others) ≡ (
          let at = enter path n args in
          let below = visit enter leave at.1 children in
          let after = visit enter leave (leave below.1) others in
          (selected n at.0 below.0 after.0, after.1))

abbrev pub push_arguments : Visitor → List ArgSource → SelectionSet → SelectionSet
push_arguments visitor args set = (visitor.visit (enter_field args) left [] set).0

unfoldable pub provider_args : ProviderQuery → List ArgSource → List ArgSource
provider_args q [] = []
provider_args q (a ∷ args) =
    let rest = provider_args q args in
    if a.mapping.provider_key == q.service_key && a.mapping.schema_id == q.schema_id
    then a ∷ rest
    else rest

-- `print` gives the text of a query of a name and its fields.
module _ (visitor : Visitor) (print : String → SelectionSet → String) where
  abbrev pub request_of : List ArgSource → ProviderQuery → FederationServiceRequest
  request_of args q = record {
    service_key = q.service_key;
    schema_id = q.schema_id;
    graphql_request =
        print q.operation_name (push_arguments visitor (provider_args q args) q.selections);
  }

  abbrev pub query_builder :
      List ArgSource → List ProviderLevelFieldRecord → List FederationServiceRequest
  query_builder args fields = map (request_of args) (build_provider_level_query fields)
