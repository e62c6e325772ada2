-- ===== src/Orchestration/Compatibility.antt =====
-- The compatibility of a new SDL with the active one: exchange/orchestration-engine/services/schema.go.
-- `parse` is the GraphQL parser, `none` where it fails. A Go map is a Dict.
use Prim.Native.String.{◌++◌ as concat, len}
use text.Mathlib.Text.{find?}
use opendif_core.Base.{
  Bool, Dict, List, Option, String, [], err, false, has_key, if◌then◌else◌, insert, is_nil, lookup,
  ltb, none, not, ok, some, true, ◌==◌, ◌||◌, ◌∷◌,
}
use opendif_core.Orchestration.Query.Collect.{
  FieldDefinition, Schema, TypeRef, list_of, named, non_null,
}
use opendif_core.Orchestration.Versions.{UnifiedSchema, get_active_schema}

pub record FieldTypeInfo : Type 0 where
  pub type_name : String
  pub field_name : String
  pub type_definition : String

-- getTypeDefinition
unfoldable pub get_type_definition : TypeRef → String
get_type_definition (non_null t) = concat (get_type_definition t) "!"
get_type_definition (list_of t) = concat "[" (concat (get_type_definition t) "]")
get_type_definition (named n) = n

abbrev pub field_key : (type_name field_name : String) → String
field_key t f = concat t (concat "." f)

-- the fields of one object
unfoldable pub extract_fields :
    String → List FieldDefinition → Dict FieldTypeInfo → Dict FieldTypeInfo
extract_fields t [] found_fields = found_fields
extract_fields t (f ∷ fs) found_fields = extract_fields t fs (
    insert (field_key t f.name)
      (record {
        type_name = t;
        field_name = f.name;
        type_definition = get_type_definition f.field_type;
      })
      found_fields)

unfoldable pub extract_objects : Schema → Dict FieldTypeInfo → Dict FieldTypeInfo
extract_objects [] found_fields = found_fields
extract_objects (none ∷ defs) found_fields = extract_objects defs found_fields
extract_objects (some o ∷ defs) found_fields =
    extract_objects defs (extract_fields o.name o.fields found_fields)

-- extractFieldDefinitions
abbrev pub extract_field_definitions : Schema → Dict FieldTypeInfo
extract_field_definitions doc = extract_objects doc []

abbrev pub group_of : Option (Dict FieldTypeInfo) → Dict FieldTypeInfo
group_of none = []
group_of (some group) = group

-- the fields by the name of their type
unfoldable pub group_by_type :
    Dict FieldTypeInfo → Dict (Dict FieldTypeInfo) → Dict (Dict FieldTypeInfo)
group_by_type [] groups = groups
group_by_type (entry ∷ fields) groups =
    let info = entry.1 in
    let group = group_of (lookup info.type_name groups) in
    group_by_type fields (insert info.type_name (insert info.field_name info group) groups)

-- is a key of the first map not in the second?
unfoldable pub lacks_key : Dict FieldTypeInfo → Dict FieldTypeInfo → Bool
lacks_key [] later_fields = false
lacks_key (entry ∷ earlier_fields) later_fields =
    not (has_key entry.0 later_fields) || lacks_key earlier_fields later_fields

unfoldable pub lacks_group : Dict (Dict FieldTypeInfo) → Dict (Dict FieldTypeInfo) → Bool
lacks_group [] new_groups = false
lacks_group (entry ∷ old_groups) new_groups =
    let rest = lacks_group old_groups new_groups in
    elim (lookup entry.0 new_groups) [ none ↦ true | some group ↦ lacks_key entry.1 group || rest ]

-- is a field of both maps of another type in the second?
unfoldable pub changes_type : Dict FieldTypeInfo → Dict FieldTypeInfo → Bool
changes_type [] later_fields = false
changes_type (entry ∷ earlier_fields) later_fields =
    let rest = changes_type earlier_fields later_fields in
    elim (lookup entry.0 later_fields) [
      | none ↦ rest
      | some info ↦ not (entry.1.type_definition == info.type_definition) || rest
    ]

-- compareFieldTypes
abbrev pub compare_field_types : Dict FieldTypeInfo → Dict FieldTypeInfo → Bool
compare_field_types earlier_fields later_fields =
    changes_type earlier_fields later_fields || lacks_key earlier_fields later_fields

module _ (parse : String → Option Schema) where
  -- hasRemovedFields
  unfoldable pub has_removed_fields : (old_sdl new_sdl : String) → Bool
  has_removed_fields old_sdl new_sdl = elim (parse old_sdl) [
    | none ↦ false
    | some old_doc ↦ elim (parse new_sdl) [
      | none ↦ false
      | some new_doc ↦
          lacks_group (group_by_type (extract_field_definitions old_doc) [])
            (group_by_type (extract_field_definitions new_doc) [])
    ]
  ]

  -- hasTypeChanges
  unfoldable pub has_type_changes : (old_sdl new_sdl : String) → Bool
  has_type_changes old_sdl new_sdl = elim (parse old_sdl) [
    | none ↦ false
    | some old_doc ↦ elim (parse new_sdl) [
      | none ↦ false
      | some new_doc ↦
          compare_field_types (extract_field_definitions old_doc)
            (extract_field_definitions new_doc)
    ]
  ]

  -- analyzeCompatibility: the verdict and the reason, and the changes that it lists as breaking, as
  -- not breaking and as warnings
  unfoldable pub analyze_compatibility :
      (old_sdl new_sdl : String) → Bool × String × (List String × List String × List String)
  analyze_compatibility old_sdl new_sdl =
      if has_removed_fields old_sdl new_sdl
      then (false, "breaking changes detected", ("Fields have been removed" ∷ [], [], []))
      else (let additions =
            if ltb (len old_sdl) (len new_sdl) then "New fields have been added" ∷ [] else [] in
          if has_type_changes old_sdl new_sdl
          then (
            false,
            "breaking changes detected",
            ("Field types have been changed" ∷ [], additions, []),
          )
          else (
            true,
            "compatible",
            (
              [],
              additions,
              if is_nil (find? new_sdl "@deprecated")
                  then []
                  else "Some fields are marked as deprecated" ∷ [],
            ),
          ))

  -- CheckCompatibility
  unfoldable pub check_compatibility : Option String → String → List UnifiedSchema → Bool × String
  check_compatibility fails new_sdl rows = elim (get_active_schema fails rows) [
    | err e ↦ (false, concat "failed to get active schema: " e)
    | ok active ↦ elim active [
      | none ↦ (true, "no active schema to compare against")
      | some s ↦ let verdict = analyze_compatibility s.sdl new_sdl in (verdict.0, verdict.1)
    ]
  ]
