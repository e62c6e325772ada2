-- ===== src/Orchestration/Query/Directives.antt =====
-- The @sourceInfo directives that mapper.go reads: those of the name, in their order.
use mathlib.Core.List.Memᴰ.{cases_cons}
use opendif_core.Base.{
  Bool-cases, List, Memᴰ, Option, [], ap, eq_iff, inl, inr, none, refl, some, sym, true, ◌==◌, ◌∙◌,
  ◌∷◌, ◌≡◌,
}
use opendif_core.Orchestration.Models.{ProviderLevelFieldRecord}
use opendif_core.Orchestration.Query.Collect.{
  Directive, FieldDefinition, field_directives, no_record, provider_field_map, read_sources,
  source_infos,
}

source_infos-named :
    (d : Directive) (ds : List Directive)
    → Memᴰ d (source_infos ds)
    → Memᴰ d ds × (d.name ≡ "sourceInfo")
unfolding source_infos
source_infos-named d [] m = elim m [ ]
source_infos-named d (x ∷ ds) m = elim (Bool-cases (x.name == "sourceInfo")) [
  | inl e ↦ split e (source_infos-named d ds) (rw e at m)
  | inr e ↦ let (there, k) = source_infos-named d ds (rw e at m) in (Memᴰ.tail there, k)
]
  where
    split :
        (x.name == "sourceInfo") ≡ true
        → (Memᴰ d (source_infos ds) → Memᴰ d ds × (d.name ≡ "sourceInfo"))
        → Memᴰ d (x ∷ source_infos ds)
        → Memᴰ d (x ∷ ds) × (d.name ≡ "sourceInfo")
    split e earlier (Memᴰ.head same) =
        (Memᴰ.head same, ap (λ y. y.name) same ∙ (eq_iff x.name "sourceInfo").0 e)
    split e earlier (Memᴰ.tail there) = let (m', k) = earlier there in (Memᴰ.tail m', k)

pub named-source_infos :
    {d : Directive} (ds : List Directive)
    → Memᴰ d ds
    → d.name ≡ "sourceInfo"
    → Memᴰ d (source_infos ds)
unfolding source_infos
named-source_infos [] m k = elim m [ ]
named-source_infos {d} (x ∷ ds) (Memᴰ.head same) k =
    let e : (x.name == "sourceInfo") ≡ true =
      (eq_iff x.name "sourceInfo").1 (ap (λ y. y.name) (sym same) ∙ k) in
    rw e (Memᴰ.head same)
named-source_infos {d} (x ∷ ds) (Memᴰ.tail there) k =
    let later = named-source_infos ds there k in
    elim (Bool-cases (x.name == "sourceInfo")) [
      | inl e ↦ rw e (Memᴰ.tail later)
      | inr e ↦ rw e later
    ]

pub field_directives-named :
    {d : Directive} (o : Option FieldDefinition)
    → Memᴰ d (field_directives o)
    → (f : FieldDefinition) × (o ≡ some f) × Memᴰ d f.directives × (d.name ≡ "sourceInfo")
unfolding field_directives
field_directives-named none m = elim m [ ]
field_directives-named (some f) m =
    let (there, k) = source_infos-named _ f.directives m in (f, refl, there, k)

pub provider_field_map-read :
    {r : ProviderLevelFieldRecord} (ds : List Directive)
    → Memᴰ r (provider_field_map ds)
    → (d : Directive) × Memᴰ d ds × (r ≡ read_sources d.arguments no_record)
unfolding provider_field_map
provider_field_map-read [] m = elim m [ ]
provider_field_map-read {r} (d ∷ ds) m = elim (Bool-cases (d.name == "sourceInfo")) [
  | inl e ↦ elim (cases_cons (rw e at m)) [
    | inl same ↦ (d, Memᴰ.head refl, same)
    | inr there ↦ let (x, m', same) = provider_field_map-read ds there in (x, Memᴰ.tail m', same)
  ]
  | inr e ↦ let (x, m', same) = provider_field_map-read ds (rw e at m) in (x, Memᴰ.tail m', same)
]

pub read-provider_field_map :
    {d : Directive} (ds : List Directive)
    → Memᴰ d ds
    → d.name ≡ "sourceInfo"
    → Memᴰ (read_sources d.arguments no_record) (provider_field_map ds)
unfolding provider_field_map
read-provider_field_map [] m k = elim m [ ]
read-provider_field_map {d} (x ∷ ds) (Memᴰ.head same) k =
    let e : (x.name == "sourceInfo") ≡ true =
      (eq_iff x.name "sourceInfo").1 (ap (λ y. y.name) (sym same) ∙ k) in
    rw e (Memᴰ.head (ap (λ y. read_sources y.arguments no_record) same))
read-provider_field_map {d} (x ∷ ds) (Memᴰ.tail there) k =
    let later = read-provider_field_map ds there k in
    elim (Bool-cases (x.name == "sourceInfo")) [
      | inl e ↦ rw e (Memᴰ.tail later)
      | inr e ↦ rw e later
    ]
