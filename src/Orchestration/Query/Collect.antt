-- ===== src/Orchestration/Query/Collect.antt =====
-- The fields that a query asks for, and where their providers are:
-- exchange/orchestration-engine/federator/mapper.go. The parser gives no definition, field,
-- directive or argument without a name, and no field definition without a type.
use opendif_core.Base.{
  Bool, List, Option, Result, String, [], err, false, if◌then◌else◌, none, not, ok, some, true,
  ◌++◌, ◌==◌, ◌∷◌,
}
use opendif_core.Orchestration.Models.{ErrorReply, ProviderLevelFieldRecord}
use opendif_core.Orchestration.Query.Trees.{Argument, string_value}

-- ast.Type
pub data TypeRef : Type 0 where
  named : String → TypeRef
  list_of : TypeRef → TypeRef
  non_null : TypeRef → TypeRef

-- ast.Directive
pub record Directive : Type 0 where
  pub name : String
  pub arguments : List Argument

-- ast.FieldDefinition
pub record FieldDefinition : Type 0 where
  pub name : String
  pub field_type : TypeRef
  pub directives : List Directive

-- ast.ObjectDefinition
pub record ObjectDefinition : Type 0 where
  pub name : String
  pub fields : List FieldDefinition

-- the definitions of a schema; those that are no object definitions are `none`
abbrev pub Schema : Type 0
Schema = List (Option ObjectDefinition)

-- the selection set of a query: a field with its arguments, directives and the fields below it, or
-- a fragment, and the next selections; `stop` is an empty set and nil alike
pub data QuerySet : Type 0 where
  stop : QuerySet
  asked : String → List Argument → List Directive → QuerySet → QuerySet → QuerySet
  fragment : QuerySet → QuerySet

-- ast.OperationDefinition, with the names of its variable definitions
pub record Operation : Type 0 where
  pub operation : String
  pub selection_set : QuerySet
  pub variable_definitions : List String

unfoldable pub find_object_definition : String → Schema → Option ObjectDefinition
find_object_definition object_name [] = none
find_object_definition object_name (none ∷ defs) = find_object_definition object_name defs
find_object_definition object_name (some o ∷ defs) =
    if o.name == object_name then some o else find_object_definition object_name defs

unfoldable pub find_field_in : List FieldDefinition → String → Option FieldDefinition
find_field_in [] field_name = none
find_field_in (f ∷ fs) field_name =
    if f.name == field_name then some f else find_field_in fs field_name

abbrev pub find_field_definition : String → Schema → String → Option FieldDefinition
find_field_definition field_name schema parent_object_name =
    elim (find_object_definition parent_object_name schema) [
      | none ↦ none
      | some o ↦ find_field_in o.fields field_name
    ]

unfoldable pub source_infos : List Directive → List Directive
source_infos [] = []
source_infos (d ∷ ds) =
    let rest = source_infos ds in if d.name == "sourceInfo" then d ∷ rest else rest

-- the directives of the field's definition that the walk collects
unfoldable pub field_directives : Option FieldDefinition → List Directive
field_directives none = []
field_directives (some f) = source_infos f.directives

-- the object below the field, and whether the field is an array
unfoldable pub nested_object : Schema → Option FieldDefinition → Option (Bool × ObjectDefinition)
nested_object schema none = none
nested_object schema (some f) = elim f.field_type [
  | named n ↦ elim (find_object_definition n schema) [ none ↦ none | some o ↦ some (false, o) ]
  | list_of t ↦ elim t [
    | named n ↦ elim (find_object_definition n schema) [ none ↦ none | some o ↦ some (true, o) ]
    | list_of u ↦ none
    | non_null u ↦ none
  ]
  | non_null t ↦ none
]

-- the directives and the arguments that the walk has so far
abbrev pub Collected : Type 0
Collected = List Directive × List Argument

-- RecursivelyExtractSourceSchemaInfoWithArrayInfo: the query's set with the directives pushed, and
-- what is collected
unfoldable pub extract_with_array_info :
    Schema → ObjectDefinition → QuerySet → Collected → QuerySet × Collected
extract_with_array_info schema object stop so_far = (stop, so_far)
extract_with_array_info schema object (fragment others) so_far =
    let (after, collected) = extract_with_array_info schema object others so_far in
    (fragment after, collected)
extract_with_array_info schema object (asked n args directives children others) so_far =
    let def = find_field_definition n schema object.name in
    let so_far : Collected = (so_far.0 ++ field_directives def, so_far.1 ++ args) in
    let (below, so_far) : QuerySet × Collected = elim (nested_object schema def) [
      | none ↦ (children, so_far)
      | some o ↦ extract_with_array_info schema o.1 children so_far
    ] in
    let (after, so_far) = extract_with_array_info schema object others so_far in
    (asked n args (directives ++ field_directives def) below after, so_far)

-- RecursivelyExtractSourceSchemaInfo
unfoldable pub extract : Schema → ObjectDefinition → QuerySet → Collected → QuerySet × Collected
extract schema object stop so_far = (stop, so_far)
extract schema object (fragment others) so_far =
    let (after, collected) = extract schema object others so_far in (fragment after, collected)
extract schema object (asked n args directives children others) so_far =
    let def = find_field_definition n schema object.name in
    let so_far : Collected = (so_far.0 ++ field_directives def, so_far.1 ++ args) in
    let (below, so_far) : QuerySet × Collected = elim (nested_object schema def) [
      | none ↦ (children, so_far)
      | some o ↦ elim o.0 [
        | false ↦ extract schema o.1 children so_far
        | true ↦ extract_with_array_info schema o.1 children so_far
      ]
    ] in
    let (after, so_far) = extract schema object others so_far in
    (asked n args (directives ++ field_directives def) below after, so_far)

-- one argument of a @sourceInfo directive
unfoldable pub read_source : Argument → ProviderLevelFieldRecord → ProviderLevelFieldRecord
read_source arg f = elim arg.value [
  | string_value v ↦ record {
    service_key = if arg.name == "providerKey" then v else f.service_key;
    schema_id = if arg.name == "schemaId" then v else f.schema_id;
    field_path = if arg.name == "providerField" then v else f.field_path;
  }
  | _ ↦ f
]

unfoldable pub read_sources : List Argument → ProviderLevelFieldRecord → ProviderLevelFieldRecord
read_sources [] f = f
read_sources (a ∷ args) f = read_sources args (read_source a f)

abbrev pub no_record : ProviderLevelFieldRecord
no_record = record { service_key = ""; schema_id = ""; field_path = "" }

-- ProviderFieldMap
unfoldable pub provider_field_map : List Directive → List ProviderLevelFieldRecord
provider_field_map [] = []
provider_field_map (d ∷ ds) =
    let rest = provider_field_map ds in
    if d.name == "sourceInfo" then read_sources d.arguments no_record ∷ rest else rest

-- SchemaCollectionResponse
pub record SchemaCollection : Type 0 where
  pub field_map : List ProviderLevelFieldRecord
  pub arguments : List Argument
  pub variable_definitions : List String

-- ProviderSchemaCollector; the definitions of the query are its operations
unfoldable pub provider_schema_collector :
    Schema → List Operation → Result ErrorReply SchemaCollection
provider_schema_collector schema (q ∷ []) =
    if not (q.operation == "query")
    then err (record { message = "Only query operation is supported"; code = none })
    else elim (find_object_definition "Query" schema) [
      | none ↦ err (record { message = "Query object definition not found in schema"; code = none })
      | some object ↦
          let (set, collected) = extract schema object q.selection_set ([], []) in
          ok (record {
            field_map = provider_field_map collected.0;
            arguments = collected.1;
            variable_definitions = q.variable_definitions;
          })
    ]
provider_schema_collector schema _ =
    err (record { message = "Only query operation is supported"; code = none })
