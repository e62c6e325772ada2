-- ===== src/Orchestration/Query/Selected.antt =====
-- What the walk over the query collects.
use mathlib.Core.List.{append-nil, append_assoc}
use opendif_core.Base.{
  List, Option-cases, [], ap, false, inl, inr, none, refl, some, true, ◌++◌, ◌∙◌, ◌≡◌,
}
use opendif_core.Orchestration.Query.Collect.{
  Collected, Directive, ObjectDefinition, QuerySet, Schema, asked, extract, extract_with_array_info,
  field_directives, find_field_definition, fragment, nested_object, stop,
}
use opendif_core.Orchestration.Query.Trees.{Argument}

append_chain : {A : Type 0} (a b c d : List A) → ((a ++ b) ++ c) ++ d ≡ a ++ (b ++ (c ++ d))
append_chain a b c d = append_assoc (a ++ b) c d ∙ append_assoc a b (c ++ d)

-- What a field, those below it and those after it add to what is collected.
collect :
    (so_far : Collected) (directives below after : List Directive)
    (args args_below args_after : List Argument)
    → ◌≡◌ {A = Collected}
        (
          ((so_far.0 ++ directives) ++ below) ++ after,
          ((so_far.1 ++ args) ++ args_below) ++ args_after,
        )
        (
          so_far.0 ++ (directives ++ (below ++ after)),
          so_far.1 ++ (args ++ (args_below ++ args_after)),
        )
collect so_far directives below after args args_below args_after =
    cc (
      append_chain so_far.0 directives below after,
      append_chain so_far.1 args args_below args_after,
    )

module _ (schema : Schema) where
  -- The @sourceInfo directives of the selected fields in the order of the query: those of a field,
  -- of the fields below it and of the fields after it.
  unfoldable pub selected_directives : ObjectDefinition → QuerySet → List Directive
  selected_directives object stop = []
  selected_directives object (fragment others) = selected_directives object others
  selected_directives object (asked n args directives children others) =
      let def = find_field_definition n schema object.name in
      field_directives def ++ elim (nested_object schema def) [
        | none ↦ selected_directives object others
        | some o ↦ selected_directives o.1 children ++ selected_directives object others
      ]

  unfoldable pub selected_arguments : ObjectDefinition → QuerySet → List Argument
  selected_arguments object stop = []
  selected_arguments object (fragment others) = selected_arguments object others
  selected_arguments object (asked n args directives children others) =
      args ++ elim (nested_object schema (find_field_definition n schema object.name)) [
        | none ↦ selected_arguments object others
        | some o ↦ selected_arguments o.1 children ++ selected_arguments object others
      ]

  abbrev added : Collected → ObjectDefinition → QuerySet → Collected
  added so_far object set =
      (so_far.0 ++ selected_directives object set, so_far.1 ++ selected_arguments object set)

  extract_with_array_info-added :
      (object : ObjectDefinition) (set : QuerySet) (so_far : Collected)
      → (extract_with_array_info schema object set so_far).1 ≡ added so_far object set
  unfolding extract_with_array_info selected_directives selected_arguments
  extract_with_array_info-added object stop so_far = cc (append-nil so_far.0, append-nil so_far.1)
  extract_with_array_info-added object (fragment others) so_far =
      extract_with_array_info-added object others so_far
  extract_with_array_info-added object (asked n args directives children others) so_far =
      let def = find_field_definition n schema object.name in
      let with_field : Collected = (so_far.0 ++ field_directives def, so_far.1 ++ args) in
      elim (Option-cases (nested_object schema def)) [
        | inl e ↦ rw e (
            extract_with_array_info-added object others with_field
            ∙ cc (
              append_assoc so_far.0 (field_directives def) (selected_directives object others),
              append_assoc so_far.1 args (selected_arguments object others),
            ))
        | inr (o, e) ↦
            let below = extract_with_array_info-added o.1 children with_field in
            let after =
              extract_with_array_info-added object others
                (extract_with_array_info schema o.1 children with_field).1 in
            rw e (
              after
              ∙ ap (λ acc. added acc object others) below
              ∙ collect so_far (field_directives def) (selected_directives o.1 children)
                  (selected_directives object others) args (selected_arguments o.1 children)
                  (selected_arguments object others))
      ]

  -- The two walks do the same: the flag for arrays changes nothing.
  pub extract-extract_with_array_info :
      (object : ObjectDefinition) (set : QuerySet) (so_far : Collected)
      → extract schema object set so_far ≡ extract_with_array_info schema object set so_far
  unfolding extract extract_with_array_info
  extract-extract_with_array_info object stop so_far = refl
  extract-extract_with_array_info object (fragment others) so_far =
      let later = extract-extract_with_array_info object others so_far in rw later refl
  extract-extract_with_array_info object (asked n args directives children others) so_far =
      let def = find_field_definition n schema object.name in
      let with_field : Collected = (so_far.0 ++ field_directives def, so_far.1 ++ args) in
      elim (Option-cases (nested_object schema def)) [
        | inl e ↦ rw (e, extract-extract_with_array_info object others with_field) refl
        | inr ((true, o), e) ↦ rw (e, extract-extract_with_array_info object others _) refl
        | inr ((false, o), e) ↦
            rw (e, extract-extract_with_array_info o children with_field)
              (rw (extract-extract_with_array_info object others _) refl)
      ]

  -- What the walk collects is what is selected, in the order of the query.
  pub extract-selected :
      (object : ObjectDefinition) (set : QuerySet)
      → (extract schema object set ([], [])).1
        ≡ (selected_directives object set, selected_arguments object set)
  extract-selected object set =
      ap (λ r. r.1) (extract-extract_with_array_info object set ([], []))
      ∙ extract_with_array_info-added object set ([], [])
