-- ===== src/Orchestration/Query/Defined.antt =====
-- What a schema defines, and which object stands below a field, as relations that the searches of
-- mapper.go decide.
use opendif_core.Base.{
  Bool, Bool-cases, List, Option, Option-cases, String, [], arith, eq_false→ne, eq_iff, false,
  if◌then◌else◌, inl, inr, ne→eq_false, none, refl, some, subst, true, ◌==◌, ◌↔◌, ◌∷◌, ◌≡◌, ◌≢◌,
}
use opendif_core.Orchestration.Query.Collect.{
  FieldDefinition, ObjectDefinition, Schema, TypeRef, find_field_definition, find_field_in,
  find_object_definition, list_of, named, nested_object, no_record, non_null, read_source,
  read_sources,
}
use opendif_core.Orchestration.Models.{ProviderLevelFieldRecord}
use opendif_core.Orchestration.Query.Trees.{Argument, Value, string_value}

-- the first object definition of the name
pub data IsObjectOf (n : String) : Schema → ObjectDefinition → Type 0 where
  this_object : (o : ObjectDefinition) (defs : Schema) → o.name ≡ n → IsObjectOf n (some o ∷ defs) o
  next_object :
      (x o : ObjectDefinition) (defs : Schema)
      → x.name ≢ n
      → IsObjectOf n defs o
      → IsObjectOf n (some x ∷ defs) o
  no_object :
      (o : ObjectDefinition) (defs : Schema) → IsObjectOf n defs o → IsObjectOf n (none ∷ defs) o

-- the first field definition of the name
pub data IsFieldOf (n : String) : List FieldDefinition → FieldDefinition → Type 0 where
  this_field :
      (f : FieldDefinition) (fs : List FieldDefinition) → f.name ≡ n → IsFieldOf n (f ∷ fs) f
  next_field :
      (g f : FieldDefinition) (fs : List FieldDefinition)
      → g.name ≢ n
      → IsFieldOf n fs f
      → IsFieldOf n (g ∷ fs) f

-- The schema's object `t` defines the field `n` so.
abbrev pub Defines : Schema → (t n : String) → FieldDefinition → Type 0
Defines schema t n f = (o : ObjectDefinition) × IsObjectOf t schema o × IsFieldOf n o.fields f

-- A type that is the name, or a list of it; no type with a `!` is.
pub data Names : TypeRef → String → Type 0 where
  itself : (n : String) → Names (named n) n
  listed : (n : String) → Names (list_of (named n)) n

-- The object below a field of that definition: the first of the name that its type has.
abbrev pub IsBelow : Schema → FieldDefinition → ObjectDefinition → Type 0
IsBelow schema g o = (n : String) × Names g.field_type n × IsObjectOf n schema o

find_object-IsObjectOf :
    {n : String} {o : ObjectDefinition} (defs : Schema)
    → find_object_definition n defs ≡ some o
    → IsObjectOf n defs o
unfolding find_object_definition
find_object-IsObjectOf [] h = absurd (ground arith)
find_object-IsObjectOf (none ∷ defs) h = no_object _ defs (find_object-IsObjectOf defs h)
find_object-IsObjectOf {n} {o} (some x ∷ defs) h = elim (Bool-cases (x.name == n)) [
  | inl e ↦
      let same : some x ≡ some o = rw (e, find_object_definition) at h in
      let x_is : x ≡ o = cc same in
      subst (λ y. IsObjectOf n (some x ∷ defs) y) x_is (this_object x defs ((eq_iff _ _).0 e))
  | inr e ↦
      next_object x o defs (eq_false→ne _ _ e)
        (find_object-IsObjectOf defs (rw (e, find_object_definition) at h))
]

IsObjectOf-find_object :
    {n : String} {defs : Schema} {o : ObjectDefinition}
    → IsObjectOf n defs o
    → find_object_definition n defs ≡ some o
unfolding find_object_definition
IsObjectOf-find_object (this_object o defs e) = rw ((eq_iff _ _).1 e) refl
IsObjectOf-find_object {n} (next_object x o defs ne i) =
    rw (ne→eq_false x.name n ne) (IsObjectOf-find_object i)
IsObjectOf-find_object (no_object o defs i) = IsObjectOf-find_object i

find_field-IsFieldOf :
    {n : String} {f : FieldDefinition} (fs : List FieldDefinition)
    → find_field_in fs n ≡ some f
    → IsFieldOf n fs f
unfolding find_field_in
find_field-IsFieldOf [] h = absurd (ground arith)
find_field-IsFieldOf {n} {f} (g ∷ fs) h = elim (Bool-cases (g.name == n)) [
  | inl e ↦
      let same : some g ≡ some f = rw (e, find_field_in) at h in
      let g_is : g ≡ f = cc same in
      subst (λ y. IsFieldOf n (g ∷ fs) y) g_is (this_field g fs ((eq_iff _ _).0 e))
  | inr e ↦
      next_field g f fs (eq_false→ne _ _ e) (find_field-IsFieldOf fs (rw (e, find_field_in) at h))
]

IsFieldOf-find_field :
    {n : String} {fs : List FieldDefinition} {f : FieldDefinition}
    → IsFieldOf n fs f
    → find_field_in fs n ≡ some f
unfolding find_field_in
IsFieldOf-find_field (this_field f fs e) = rw ((eq_iff _ _).1 e) refl
IsFieldOf-find_field {n} (next_field g f fs ne i) =
    rw (ne→eq_false g.name n ne) (IsFieldOf-find_field i)

pub find_field_definition_iff :
    (schema : Schema) (t n : String) (f : FieldDefinition)
    → (find_field_definition n schema t ≡ some f) ↔ Defines schema t n f
find_field_definition_iff schema t n f = (to, from)
  where
    to : find_field_definition n schema t ≡ some f → Defines schema t n f
    to h = elim (Option-cases (find_object_definition t schema)) [
      | inl e ↦ absurd (ground (arith, h, e))
      | inr (o, e) ↦ (
        o,
        find_object-IsObjectOf schema e,
        find_field-IsFieldOf o.fields (rw (e, find_field_definition) at h),
      )
    ]

    from : Defines schema t n f → find_field_definition n schema t ≡ some f
    from (o, i, j) = rw (IsObjectOf-find_object i, find_field_definition) (IsFieldOf-find_field j)

pub find_object_definition_iff :
    (schema : Schema) (n : String) (o : ObjectDefinition)
    → (find_object_definition n schema ≡ some o) ↔ IsObjectOf n schema o
find_object_definition_iff schema n o = (find_object-IsObjectOf schema, IsObjectOf-find_object)

pub nested_object-IsBelow :
    (schema : Schema) (def : Option FieldDefinition) (o : Bool × ObjectDefinition)
    → nested_object schema def ≡ some o
    → (g : FieldDefinition) × (def ≡ some g) × IsBelow schema g o.1
unfolding nested_object
nested_object-IsBelow schema none o h = absurd (ground arith)
nested_object-IsBelow schema (some g) o h = (g, refl, of_type g.field_type refl)
  where
    of_type : (t : TypeRef) → g.field_type ≡ t → IsBelow schema g o.1
    of_type (named n) e = elim (Option-cases (find_object_definition n schema)) [
      | inl q ↦ absurd (ground (arith, rw (e, q, nested_object) at h))
      | inr (x, q) ↦
          let shown : some (false, x) ≡ some o = rw (e, q, nested_object) at h in
          let same : x ≡ o.1 = cc shown in
          (n, rw e (itself n), subst (IsObjectOf n schema) same (find_object-IsObjectOf schema q))
    ]
    of_type (list_of (named n)) e = elim (Option-cases (find_object_definition n schema)) [
      | inl q ↦ absurd (ground (arith, rw (e, q, nested_object) at h))
      | inr (x, q) ↦
          let shown : some (true, x) ≡ some o = rw (e, q, nested_object) at h in
          let same : x ≡ o.1 = cc shown in
          (n, rw e (listed n), subst (IsObjectOf n schema) same (find_object-IsObjectOf schema q))
    ]
    of_type (list_of (list_of u)) e = absurd (ground (arith, rw (e, nested_object) at h))
    of_type (list_of (non_null u)) e = absurd (ground (arith, rw (e, nested_object) at h))
    of_type (non_null u) e = absurd (ground (arith, rw (e, nested_object) at h))

pub IsBelow-nested_object :
    (schema : Schema) (g : FieldDefinition) (o : ObjectDefinition)
    → IsBelow schema g o
    → (b : Bool) × (nested_object schema (some g) ≡ some (b, o))
unfolding nested_object
IsBelow-nested_object schema g o (n, t, i) = of_type g.field_type refl t
  where
    of_type :
        (t : TypeRef)
        → g.field_type ≡ t
        → Names t n
        → (b : Bool) × (nested_object schema (some g) ≡ some (b, o))
    of_type _ e (itself _) = (false, rw (e, nested_object, IsObjectOf-find_object i) refl)
    of_type _ e (listed _) = (true, rw (e, nested_object, IsObjectOf-find_object i) refl)

-- The text of the last argument of the name that has a text, or the default.
unfoldable pub given : String → List Argument → String → String
given n [] default = default
given n (a ∷ args) default = elim a.value [
  | string_value v ↦ given n args (if a.name == n then v else default)
  | _ ↦ given n args default
]

-- What the arguments of a @sourceInfo directive say, over what is known before.
abbrev said_over : List Argument → ProviderLevelFieldRecord → ProviderLevelFieldRecord
said_over args f = record {
  service_key = given "providerKey" args f.service_key;
  schema_id = given "schemaId" args f.schema_id;
  field_path = given "providerField" args f.field_path;
}

-- What the arguments of a @sourceInfo directive say.
abbrev pub said : List Argument → ProviderLevelFieldRecord
said args = record {
  service_key = given "providerKey" args "";
  schema_id = given "schemaId" args "";
  field_path = given "providerField" args "";
}

read_sources-said_over :
    (args : List Argument) (f : ProviderLevelFieldRecord) → read_sources args f ≡ said_over args f
unfolding read_sources read_source given
read_sources-said_over [] f = refl
read_sources-said_over (a ∷ args) f = of_value a.value refl (read_sources-said_over args)
  where
    of_value :
        (v : Value)
        → a.value ≡ v
        → ((g : ProviderLevelFieldRecord) → read_sources args g ≡ said_over args g)
        → read_sources (a ∷ args) f ≡ said_over (a ∷ args) f
    of_value (string_value v) e later = rw (e, read_source) (later _)
    of_value _ e later = rw (e, read_source) (later f)

pub read_sources-said : (args : List Argument) → read_sources args no_record ≡ said args
read_sources-said args = read_sources-said_over args no_record
