-- ===== src/Orchestration/Preserved.antt =====
-- What a compatible SDL keeps.
use opendif_core.Base.{
  Bool-cases, Dict, List, Option, Option-cases, String, [], ap, arith, eq_iff, false, has_key, inl,
  inr, lookup, none, refl, some, subst, sym, true, ◌==◌, ◌∙◌, ◌∷◌, ◌≡◌,
}
use opendif_core.Orchestration.Compatibility.{
  FieldTypeInfo, analyze_compatibility, changes_type, check_compatibility, compare_field_types,
  extract_field_definitions, field_key, get_type_definition, has_removed_fields, has_type_changes,
  lacks_key,
}
use opendif_core.Orchestration.Declared.{
  Declares, Declares-HasInfo, Declares-plain, HasPlainNames, extracted-Declares,
}
use opendif_core.Orchestration.Notation.{get_type_definition_injective}
use opendif_core.Orchestration.Query.Collect.{Schema, TypeRef}
use opendif_core.Orchestration.Versions.{UnifiedSchema, first_active, get_active_schema}

-- Every field of the first map is in the second, with the same type.
abbrev pub IsPreserved : Dict FieldTypeInfo → Dict FieldTypeInfo → Type 0
IsPreserved earlier_fields later_fields =
    (name_of : String) (info : FieldTypeInfo)
    → lookup name_of earlier_fields ≡ some info
    → (kept : FieldTypeInfo) × (lookup name_of later_fields ≡ some kept)
      × (kept.type_definition ≡ info.type_definition)

lookup_nil : (name_of : String) → lookup {V = FieldTypeInfo} name_of [] ≡ none
unfolding lookup
lookup_nil name_of = refl

same_fields-IsPreserved :
    (earlier_fields later_fields : Dict FieldTypeInfo)
    → changes_type earlier_fields later_fields ≡ false
    → lacks_key earlier_fields later_fields ≡ false
    → IsPreserved earlier_fields later_fields
unfolding changes_type lacks_key lookup
same_fields-IsPreserved [] later_fields c l name_of info h =
    absurd (ground (arith, h, lookup_nil name_of))
same_fields-IsPreserved (entry ∷ earlier_fields) later_fields c l name_of info h =
    elim (Option-cases (lookup entry.0 later_fields)) [
      | inl missing_key ↦ absurd (ground (arith, rw (missing_key, lacks_key, has_key) at l))
      | inr (kept, there) ↦
          let changes = rw (there, changes_type) at c in
          let lacks = rw (there, lacks_key, has_key) at l in
          elim (Bool-cases (entry.0 == name_of)) [
            | inl e ↦
                let same_key = (eq_iff entry.0 name_of).0 e in
                let first_entry = rw (e, lookup) at h in
                let same_type : entry.1.type_definition ≡ kept.type_definition =
                  (eq_iff _ _).0 (ground (arith, changes)) in
                (
                  kept,
                  subst (λ k. lookup k later_fields ≡ some kept) same_key there,
                  cc (same_type, first_entry),
                )
            | inr e ↦
                same_fields-IsPreserved earlier_fields later_fields (ground (arith, changes))
                  (ground (arith, lacks)) name_of info (rw (e, lookup) at h)
          ]
    ]

-- Where every entry of the map of one document is kept in that of another, a field that the first
-- declares, with one type, is declared by the second with the same type.
IsPreserved-Declares :
    (old_doc new_doc : Schema) (t f : String) (type : TypeRef)
    → IsPreserved (extract_field_definitions old_doc) (extract_field_definitions new_doc)
    → HasPlainNames old_doc
    → HasPlainNames new_doc
    → Declares old_doc t f type
    → ((other : TypeRef) → Declares old_doc t f other → other ≡ type)
    → Declares new_doc t f type
IsPreserved-Declares old_doc new_doc t f type kept plain new_plain d only =
    let (no_dot, plain_type) = Declares-plain old_doc t f type plain d in
    let (info, h) = Declares-HasInfo old_doc t f type d in
    let (was, was_declared, was_type) = extracted-Declares old_doc t f info plain no_dot h in
    let (info', h', same) = kept (field_key t f) info h in
    let (now, now_declared, now_type) = extracted-Declares new_doc t f info' new_plain no_dot h' in
    let now_plain = (Declares-plain new_doc t f now new_plain now_declared).1 in
    let texts : get_type_definition now ≡ get_type_definition type =
      sym now_type ∙ same ∙ was_type ∙ ap get_type_definition (only was was_declared) in
    subst (Declares new_doc t f) (get_type_definition_injective now type now_plain plain_type texts)
      now_declared

module _ (parse : String → Option Schema) where
  analyze_compatibility-has_type_changes :
      (old_sdl new_sdl : String)
      → (analyze_compatibility parse old_sdl new_sdl).0 ≡ true
      → has_type_changes parse old_sdl new_sdl ≡ false
  unfolding analyze_compatibility
  analyze_compatibility-has_type_changes old_sdl new_sdl h =
      elim (Bool-cases (has_removed_fields parse old_sdl new_sdl)) [
        | inl e ↦ absurd (ground (arith, rw (e, analyze_compatibility) at h))
        | inr e ↦ elim (Bool-cases (has_type_changes parse old_sdl new_sdl)) [
          | inl k ↦ absurd (ground (arith, rw (e, k, analyze_compatibility) at h))
          | inr k ↦ k
        ]
      ]

  has_type_changes-IsPreserved :
      (old_sdl new_sdl : String) (old_doc new_doc : Schema)
      → parse old_sdl ≡ some old_doc
      → parse new_sdl ≡ some new_doc
      → has_type_changes parse old_sdl new_sdl ≡ false
      → IsPreserved (extract_field_definitions old_doc) (extract_field_definitions new_doc)
  unfolding has_type_changes
  has_type_changes-IsPreserved old_sdl new_sdl old_doc new_doc a b h =
      let compared : compare_field_types (extract_field_definitions old_doc)
            (extract_field_definitions new_doc)
          ≡ false =
        rw (a, b, has_type_changes) at h in
      same_fields-IsPreserved _ _ (ground (arith, compared)) (ground (arith, compared))

  -- Where CheckCompatibility reports a new SDL as compatible with the active one, and the parser
  -- reads both, each field that an object type of the active schema declares, with one type, is
  -- declared by the object type of that name of the new schema, with the same type, lists and
  -- non-null marks included. No object's name holds a dot, and no type's name a mark of a type.
  pub check_compatibility-Declares :
      (new_sdl : String) (rows : List UnifiedSchema) (s : UnifiedSchema) (old_doc new_doc : Schema)
      (t f : String) (type : TypeRef)
      → first_active rows ≡ some s
      → parse s.sdl ≡ some old_doc
      → parse new_sdl ≡ some new_doc
      → HasPlainNames old_doc
      → HasPlainNames new_doc
      → (check_compatibility parse none new_sdl rows).0 ≡ true
      → Declares old_doc t f type
      → ((other : TypeRef) → Declares old_doc t f other → other ≡ type)
      → Declares new_doc t f type
  unfolding check_compatibility get_active_schema
  check_compatibility-Declares new_sdl rows s old_doc new_doc t f type e a b plain new_plain h d
        only =
      let verdict = rw (e, check_compatibility, get_active_schema) at h in
      let kept =
        has_type_changes-IsPreserved s.sdl new_sdl old_doc new_doc a b
          (analyze_compatibility-has_type_changes s.sdl new_sdl verdict) in
      IsPreserved-Declares old_doc new_doc t f type kept plain new_plain d only
