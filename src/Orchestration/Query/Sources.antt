-- ===== src/Orchestration/Query/Sources.antt =====
-- Which fields ProviderSchemaCollector collects.
use mathlib.Core.List.Memᴰ.{append_cases, append_left, append_right}
use opendif_core.Base.{
  Bool-cases, List, Memᴰ, Option-cases, String, [], arith, inl, inr, ok, some, subst, sym, ◌==◌,
  ◌↔◌, ◌∙◌, ◌∷◌, ◌≡◌,
}
use opendif_core.Orchestration.Models.{ProviderLevelFieldRecord}
use opendif_core.Orchestration.Query.Collect.{
  Directive, FieldDefinition, ObjectDefinition, Operation, QuerySet, Schema, SchemaCollection,
  asked, field_directives, find_field_definition, find_object_definition, fragment, nested_object,
  no_record, provider_field_map, provider_schema_collector, read_sources, stop,
}
use opendif_core.Orchestration.Query.Defined.{
  Defines, IsBelow, IsBelow-nested_object, IsObjectOf, find_field_definition_iff,
  find_object_definition_iff, nested_object-IsBelow, read_sources-said, said,
}
use opendif_core.Orchestration.Query.Directives.{
  field_directives-named, named-source_infos, provider_field_map-read, read-provider_field_map,
}
use opendif_core.Orchestration.Query.Selected.{
  extract-selected, selected_arguments, selected_directives,
}
use opendif_core.Orchestration.Query.Trees.{Argument}

module _ (schema : Schema) where
  -- The selections name, beside fragments, the field that the schema defines so, at the object or
  -- below a field whose type is the name of an object, or a list of that name.
  pub data Selects : ObjectDefinition → QuerySet → FieldDefinition → Type 0 where
    names_field :
        (object : ObjectDefinition) (n : String) (args : List Argument) (ds : List Directive)
        (children others : QuerySet) (f : FieldDefinition)
        → Defines schema object.name n f
        → Selects object (asked n args ds children others) f
    below_field :
        (object : ObjectDefinition) (n : String) (args : List Argument) (ds : List Directive)
        (children others : QuerySet) (f g : FieldDefinition) (o : ObjectDefinition)
        → Defines schema object.name n g
        → IsBelow schema g o
        → Selects o children f
        → Selects object (asked n args ds children others) f
    after_field :
        (object : ObjectDefinition) (n : String) (args : List Argument) (ds : List Directive)
        (children others : QuerySet) (f : FieldDefinition)
        → Selects object others f
        → Selects object (asked n args ds children others) f
    after_fragment :
        (object : ObjectDefinition) (others : QuerySet) (f : FieldDefinition)
        → Selects object others f
        → Selects object (fragment others) f

-- A @sourceInfo directive of a field that the query selects so.
abbrev pub IsSourceOf : Schema → ObjectDefinition → QuerySet → Directive → Type 0
IsSourceOf schema object set d =
    (f : FieldDefinition) × Selects schema object set f
    × Memᴰ d f.directives
    × (d.name ≡ "sourceInfo")

module _ (schema : Schema) {d : Directive} where
  selected_directives-IsSourceOf :
      (object : ObjectDefinition) (set : QuerySet)
      → Memᴰ d (selected_directives schema object set)
      → IsSourceOf schema object set d
  unfolding selected_directives
  selected_directives-IsSourceOf object stop m = elim m [ ]
  selected_directives-IsSourceOf object (fragment others) m =
      let (f, s, there, k) = selected_directives-IsSourceOf object others m in
      (f, Selects.after_fragment object others f s, there, k)
  selected_directives-IsSourceOf object (asked n args ds children others) m =
      let later : Memᴰ d (selected_directives schema object others)
          → IsSourceOf schema object (asked n args ds children others) d =
        λ m'.
          let (f, s, there, k) = selected_directives-IsSourceOf object others m' in
          (f, Selects.after_field object n args ds children others f s, there, k) in
      elim (append_cases (field_directives (find_field_definition n schema object.name)) m) [
        | inl first_one ↦
            let (f, e, there, k) = field_directives-named _ first_one in
            (
              f,
              Selects.names_field object n args ds children others f
                  ((find_field_definition_iff schema object.name n f).0 e),
              there,
              k,
            )
        | inr rest ↦
            elim (Option-cases
              (nested_object schema (find_field_definition n schema object.name))) [
                | inl e ↦ later (rw e at rest)
                | inr (o, e) ↦
                    elim (append_cases (selected_directives schema o.1 children) (rw e at rest)) [
                      | inl deeper ↦
                          let (f, s, there, k) =
                            selected_directives-IsSourceOf o.1 children deeper in
                          let (g, defined_so, below) = nested_object-IsBelow schema _ o e in
                          (
                            f,
                            Selects.below_field object n args ds children others f g o.1
                                ((find_field_definition_iff schema object.name n g).0 defined_so)
                                below s,
                            there,
                            k,
                          )
                      | inr last ↦ later last
                    ]
              ]
      ]

  IsSourceOf-selected_directives :
      {object : ObjectDefinition} {set : QuerySet} {f : FieldDefinition}
      → Selects schema object set f
      → Memᴰ d f.directives
      → d.name ≡ "sourceInfo"
      → Memᴰ d (selected_directives schema object set)
  unfolding selected_directives field_directives
  IsSourceOf-selected_directives (Selects.names_field object n args ds children others f d_is) m k =
      let e = (find_field_definition_iff schema object.name n f).1 d_is in
      append_left {s = field_directives (find_field_definition n schema object.name)} _
        (rw e (named-source_infos f.directives m k))
  IsSourceOf-selected_directives
        (Selects.below_field object n args ds children others f g o d_is below_it s) m k =
      let below = IsSourceOf-selected_directives s m k in
      let (b, below_is) = IsBelow-nested_object schema g o below_it in
      let e : nested_object schema (find_field_definition n schema object.name) ≡ some (b, o) =
        subst (λ q. nested_object schema q ≡ some (b, o))
          (sym ((find_field_definition_iff schema object.name n g).1 d_is)) below_is in
      append_right (field_directives (find_field_definition n schema object.name))
        (rw e (append_left _ below))
  IsSourceOf-selected_directives (Selects.after_field object n args ds children others f s) m k =
      let later = IsSourceOf-selected_directives s m k in
      append_right (field_directives (find_field_definition n schema object.name))
        (elim (Option-cases (nested_object schema (find_field_definition n schema object.name))) [
          | inl e ↦ rw e later
          | inr (o, e) ↦ rw e (append_right (selected_directives schema o.1 children) later)
        ])
  IsSourceOf-selected_directives (Selects.after_fragment object others f s) m k =
      IsSourceOf-selected_directives s m k

-- The record of a @sourceInfo directive of a field that the query selects so.
abbrev pub IsSourceRecord : Schema → QuerySet → ProviderLevelFieldRecord → Type 0
IsSourceRecord schema set r =
    (object : ObjectDefinition) × IsObjectOf "Query" schema object
    × ((d : Directive) × IsSourceOf schema object set d × (r ≡ said d.arguments))

provider_schema_collector-selected :
    (schema : Schema) (q : Operation) (c : SchemaCollection)
    → provider_schema_collector schema (q ∷ []) ≡ ok c
    → (object : ObjectDefinition) × (find_object_definition "Query" schema ≡ some object)
      × (c.field_map ≡ provider_field_map (selected_directives schema object q.selection_set))
      × (c.arguments ≡ selected_arguments schema object q.selection_set)
unfolding provider_schema_collector
provider_schema_collector-selected schema q c h = elim (Bool-cases (q.operation == "query")) [
  | inl e ↦ elim (Option-cases (find_object_definition "Query" schema)) [
    | inl none_there ↦ absurd (ground (arith, h, e, none_there))
    | inr (object, there) ↦
        let walked = extract-selected schema object q.selection_set in
        let result = rw (e, there) at h in (object, there, cc (result, walked), cc (result, walked))
  ]
  | inr e ↦ absurd (ground (arith, h, e))
]

-- Where ProviderSchemaCollector accepts a query operation, it collects the record that the last
-- texts for providerKey, schemaId and providerField of a @sourceInfo directive make exactly
-- where the directive stands on a field that the selections name at the first object definition
-- called Query, or below a field whose type is the name of an object or a list of that name;
-- what stands in a fragment, or below a field of any other type, such as one that is not null,
-- is not collected.
pub provider_schema_collector-IsSourceRecord :
    (schema : Schema) (q : Operation) (c : SchemaCollection) (r : ProviderLevelFieldRecord)
    → provider_schema_collector schema (q ∷ []) ≡ ok c
    → Memᴰ r c.field_map ↔ IsSourceRecord schema q.selection_set r
provider_schema_collector-IsSourceRecord schema q c r h =
    let (object, there, same, args) = provider_schema_collector-selected schema q c h in
    (
      λ m.
          let (d, m', e) =
            provider_field_map-read (selected_directives schema object q.selection_set)
              (subst (λ rs. Memᴰ r rs) same m) in
          (
            object,
            (find_object_definition_iff schema "Query" object).0 there,
            (
              d,
              selected_directives-IsSourceOf schema object q.selection_set m',
              e ∙ read_sources-said d.arguments,
            ),
          ),
      λ (o, found_it, (d, (f, s, m, k), e)).
          let o_same : object ≡ o =
            cc ((find_object_definition_iff schema "Query" o).1 found_it, there) in
          let listed = IsSourceOf-selected_directives schema s m k in
          let read : r ≡ read_sources d.arguments no_record =
            e ∙ sym (read_sources-said d.arguments) in
          rw (read, same, o_same) (read-provider_field_map _ listed k),
    )
