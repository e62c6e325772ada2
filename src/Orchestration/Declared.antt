-- ===== src/Orchestration/Declared.antt =====
-- The map of field types that the check of compatibility builds from a document, against what the
-- document declares.
use opendif_core.Base.{
  All, All-mem, Bool-cases, Dict, HasNo, List, Memᴰ, Option, String, [], ap, arith, eq_iff, eq_refl,
  if◌then◌else◌, inl, inr, insert, join_at_injective, lookup, lookup-insert, none, refl, some,
  subst, sym, ◌==◌, ◌∙◌, ◌∷◌, ◌≡◌, ◌≢◌, ◌⊎◌,
}
use opendif_core.Orchestration.Compatibility.{
  FieldTypeInfo, extract_fields, extract_objects, field_key, get_type_definition,
}
use opendif_core.Orchestration.Notation.{IsPlainType}
use opendif_core.Orchestration.Query.Collect.{FieldDefinition, ObjectDefinition, Schema, TypeRef}

-- An object type `t` of the document declares a field `f` of the type.
abbrev pub Declares : Schema → (t f : String) → TypeRef → Type 0
Declares doc t f type =
    (o : ObjectDefinition) × Memᴰ (some o) doc
    × (o.name ≡ t)
    × ((fd : FieldDefinition) × Memᴰ fd o.fields × (fd.name ≡ f) × (fd.field_type ≡ type))

abbrev pub IsPlainObject : Option ObjectDefinition → Type 0
IsPlainObject none = Unit
IsPlainObject (some o) =
    HasNo "." o.name × All (λ (fd : FieldDefinition). IsPlainType fd.field_type) o.fields

-- No name of an object holds a dot, and none in a type a mark; no GraphQL name does.
abbrev pub HasPlainNames : Schema → Type 0
HasPlainNames = All IsPlainObject

-- What the map has under a key stands in the document.
abbrev Stands : Schema → String → FieldTypeInfo → Type 0
Stands doc k info =
    (t : String) × (f : String) × (type : TypeRef) × Declares doc t f type
    × (field_key t f ≡ k)
    × (info.type_definition ≡ get_type_definition type)

-- A field of the list stands under the key.
abbrev StandsIn : String → List FieldDefinition → String → FieldTypeInfo → Type 0
StandsIn t fs k info =
    (fd : FieldDefinition) × Memᴰ fd fs
    × (field_key t fd.name ≡ k)
    × (info.type_definition ≡ get_type_definition fd.field_type)

extract_fields_sound :
    (k t : String) (fs : List FieldDefinition) (m : Dict FieldTypeInfo) (info : FieldTypeInfo)
    → lookup k (extract_fields t fs m) ≡ some info
    → StandsIn t fs k info ⊎ (lookup k m ≡ some info)
unfolding extract_fields
extract_fields_sound k t [] m info h = inr h
extract_fields_sound k t (fd ∷ fs) m info h =
    let new : FieldTypeInfo = record {
      type_name = t;
      field_name = fd.name;
      type_definition = get_type_definition fd.field_type;
    } in
    elim (extract_fields_sound k t fs (insert (field_key t fd.name) new m) info h) [
      | inl (g, there, same, is_type) ↦ inl (g, Memᴰ.tail there, same, is_type)
      | inr at_key ↦
          let put : (if◌then◌else◌ (field_key t fd.name == k) (some new) (lookup k m)) ≡ some info =
            sym (lookup-insert (field_key t fd.name) k new m) ∙ at_key in
          elim (Bool-cases (field_key t fd.name == k)) [
            | inl same ↦
                let is_new : some new ≡ some info = rw same at put in
                let new_is : new ≡ info = cc is_new in
                inl (
                  fd,
                  Memᴰ.head refl,
                  (eq_iff _ _).0 same,
                  ap (λ i. i.type_definition) (sym new_is),
                )
            | inr other ↦ inr (rw other at put)
          ]
    ]

lookup_nil : (k : String) {x : FieldTypeInfo} → lookup k [] ≢ some x
unfolding lookup
lookup_nil k e = ground arith

-- The map has the key.
abbrev HasInfo : String → Dict FieldTypeInfo → Type 0
HasInfo k m = (info : FieldTypeInfo) × (lookup k m ≡ some info)

insert-HasInfo :
    (k other : String) (x : FieldTypeInfo) (m : Dict FieldTypeInfo)
    → HasInfo k m
    → HasInfo k (insert other x m)
insert-HasInfo k other x m (info, h) = elim (Bool-cases (other == k)) [
  | inl e ↦ (x, lookup-insert other k x m ∙ rw e refl)
  | inr e ↦ (info, lookup-insert other k x m ∙ rw e h)
]

extract_fields-HasInfo :
    (k t : String) (fs : List FieldDefinition) (m : Dict FieldTypeInfo)
    → HasInfo k m
    → HasInfo k (extract_fields t fs m)
unfolding extract_fields
extract_fields-HasInfo k t [] m h = h
extract_fields-HasInfo k t (fd ∷ fs) m h =
    extract_fields-HasInfo k t fs _ (insert-HasInfo k _ _ m h)

extract_fields-listed :
    (t : String) (fs : List FieldDefinition) (m : Dict FieldTypeInfo) {fd : FieldDefinition}
    → Memᴰ fd fs
    → HasInfo (field_key t fd.name) (extract_fields t fs m)
unfolding extract_fields
extract_fields-listed t [] m l = elim l [ ]
extract_fields-listed t (g ∷ fs) m {fd} (Memᴰ.head e) =
    let new : FieldTypeInfo = record {
      type_name = t;
      field_name = g.name;
      type_definition = get_type_definition g.field_type;
    } in
    subst (λ x. HasInfo (field_key t x.name) (extract_fields t (g ∷ fs) m)) (sym e)
      (extract_fields-HasInfo (field_key t g.name) t fs (insert (field_key t g.name) new m)
        (new, lookup-insert (field_key t g.name) (field_key t g.name) new m ∙ rw eq_refl refl))
extract_fields-listed t (g ∷ fs) m (Memᴰ.tail l) = extract_fields-listed t fs _ l

extract_objects-HasInfo :
    (k : String) (doc : Schema) (m : Dict FieldTypeInfo)
    → HasInfo k m
    → HasInfo k (extract_objects doc m)
unfolding extract_objects
extract_objects-HasInfo k [] m h = h
extract_objects-HasInfo k (none ∷ doc) m h = extract_objects-HasInfo k doc m h
extract_objects-HasInfo k (some o ∷ doc) m h =
    extract_objects-HasInfo k doc _ (extract_fields-HasInfo k o.name o.fields m h)

extract_objects-listed :
    (doc : Schema) (m : Dict FieldTypeInfo) {o : ObjectDefinition} {fd : FieldDefinition}
    → Memᴰ (some o) doc
    → Memᴰ fd o.fields
    → HasInfo (field_key o.name fd.name) (extract_objects doc m)
unfolding extract_objects
extract_objects-listed [] m l n = elim l [ ]
extract_objects-listed (none ∷ doc) m (Memᴰ.head e) n = absurd (ground (arith, e))
extract_objects-listed (some x ∷ doc) m {o} {fd} (Memᴰ.head e) n =
    let same : x ≡ o = cc e in
    extract_objects-HasInfo (field_key o.name fd.name) doc _ (
      subst (λ y. HasInfo (field_key o.name fd.name) (extract_fields y.name y.fields m)) (sym same)
        (extract_fields-listed o.name o.fields m n))
extract_objects-listed (none ∷ doc) m (Memᴰ.tail l) n = extract_objects-listed doc m l n
extract_objects-listed (some x ∷ doc) m (Memᴰ.tail l) n = extract_objects-listed doc _ l n

-- What is extracted under a key stands in the document, and a declared field has its key.
extract_objects_sound :
    (k : String) (doc : Schema) (m : Dict FieldTypeInfo) (info : FieldTypeInfo)
    → lookup k (extract_objects doc m) ≡ some info
    → Stands doc k info ⊎ (lookup k m ≡ some info)
unfolding extract_objects
extract_objects_sound k [] m info h = inr h
extract_objects_sound k (none ∷ doc) m info h = elim (extract_objects_sound k doc m info h) [
  | inl (t, f, type, (o, l, is_t, rest), same, is_type) ↦
      inl (t, f, type, (o, Memᴰ.tail l, is_t, rest), same, is_type)
  | inr at_key ↦ inr at_key
]
extract_objects_sound k (some x ∷ doc) m info h =
    elim (extract_objects_sound k doc (extract_fields x.name x.fields m) info h) [
      | inl (t, f, type, (o, l, is_t, rest), same, is_type) ↦
          inl (t, f, type, (o, Memᴰ.tail l, is_t, rest), same, is_type)
      | inr at_key ↦ elim (extract_fields_sound k x.name x.fields m info at_key) [
        | inl (fd, l, same, is_type) ↦ inl (
          x.name,
          fd.name,
          fd.field_type,
          (x, Memᴰ.head refl, refl, (fd, l, refl, refl)),
          same,
          is_type,
        )
        | inr before ↦ inr before
      ]
    ]

pub Declares-plain :
    (doc : Schema) (t f : String) (type : TypeRef)
    → HasPlainNames doc
    → Declares doc t f type
    → HasNo "." t × IsPlainType type
Declares-plain doc t f type plain (o, l, named_t, (fd, n, named_f, is_type)) =
    let here_plain = All-mem IsPlainObject doc plain l in
    let type_plain =
      All-mem (λ (g : FieldDefinition). IsPlainType g.field_type) o.fields here_plain.1 n in
    (subst (HasNo ".") named_t here_plain.0, subst IsPlainType is_type type_plain)

-- What the map has for a field of an object type is the notation of a type it is declared with.
pub extracted-Declares :
    (doc : Schema) (t f : String) (info : FieldTypeInfo)
    → HasPlainNames doc
    → HasNo "." t
    → lookup (field_key t f) (extract_objects doc []) ≡ some info
    → (type : TypeRef) × Declares doc t f type × (info.type_definition ≡ get_type_definition type)
extracted-Declares doc t f info plain no_dot h =
    elim (extract_objects_sound (field_key t f) doc [] info h) [
      | inl (u, g, type, declared, same, is_type) ↦
          let both =
            join_at_injective "." u t g f (Declares-plain doc u g type plain declared).0 no_dot
              same in
          let at_t = subst (λ x. Declares doc x g type) both.0 declared in
          (type, subst (λ x. Declares doc t x type) both.1 at_t, is_type)
      | inr nothing ↦ absurd (lookup_nil (field_key t f) nothing)
    ]

-- A declared field has its entry in the map.
pub Declares-HasInfo :
    (doc : Schema) (t f : String) (type : TypeRef)
    → Declares doc t f type
    → (info : FieldTypeInfo) × (lookup (field_key t f) (extract_objects doc []) ≡ some info)
Declares-HasInfo doc t f type (o, l, named_t, (fd, n, named_f, is_type)) =
    let at_name = extract_objects-listed doc [] l n in
    subst (λ x. HasInfo (field_key t x) (extract_objects doc [])) named_f
      (subst (λ x. HasInfo (field_key x fd.name) (extract_objects doc [])) named_t at_name)
