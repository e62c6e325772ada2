-- ===== src/Policy/Index.antt =====
-- The index that GetPolicyDecision and UpdateAllowList build over the rows of a query.
use opendif_core.Base.{
  All, All-mem, Bool-cases, Dict, HasNoColon, List, Memᴰ, String, [], ap, arith, eq_iff, inl, inr,
  insert, join_colon_injective, lookup, lookup-insert, some, sym, ◌==◌, ◌∙◌, ◌∷◌, ◌≡◌, ◌⊎◌,
}
use opendif_core.Policy.Models.{FieldRef, PolicyMetadata, index_metadata, key}

-- `pm` is one of the rows, with the schema and field of the reference.
pub record IsRowOf (rows : List PolicyMetadata) (f : FieldRef) (pm : PolicyMetadata) : Type 0 where
  pub listed : Memᴰ pm rows
  pub schema : pm.schema_id ≡ f.schema_id
  pub field : pm.field_name ≡ f.field_name

-- A row that the index answers with is one of the rows, under its own key.
index_sound :
    (k : String) (rows : List PolicyMetadata) (m : Dict PolicyMetadata) (pm : PolicyMetadata)
    → lookup k (index_metadata rows m) ≡ some pm
    → (Memᴰ pm rows × (key pm.schema_id pm.field_name ≡ k)) ⊎ (lookup k m ≡ some pm)
unfolding index_metadata
index_sound k [] m pm h = inr h
index_sound k (row ∷ rows) m pm h =
    elim (index_sound k rows (insert (key row.schema_id row.field_name) row m) pm h) [
      | inl (there, same) ↦ inl (Memᴰ.tail there, same)
      | inr found_in ↦ elim (Bool-cases (key row.schema_id row.field_name == k)) [
        | inl same ↦
            let e : row ≡ pm =
              ground (arith, lookup-insert (key row.schema_id row.field_name) k row m) in
            inl (
              Memᴰ.head (sym e),
              ap (λ (r : PolicyMetadata). key r.schema_id r.field_name) (sym e)
                  ∙ (eq_iff _ _).0 same,
            )
        | inr other ↦ inr (ground (arith, lookup-insert (key row.schema_id row.field_name) k row m))
      ]
    ]

-- Every schema id of the rows and of the fields is free of colons.
abbrev pub AreClear : List PolicyMetadata → List FieldRef → Type 0
AreClear rows fields =
    All (λ pm. HasNoColon pm.schema_id) rows × All (λ f. HasNoColon f.schema_id) fields

pub index-row :
    (rows : List PolicyMetadata) (f : FieldRef) (pm : PolicyMetadata)
    → All (λ pm. HasNoColon pm.schema_id) rows
    → HasNoColon f.schema_id
    → lookup (key f.schema_id f.field_name) (index_metadata rows []) ≡ some pm
    → IsRowOf rows f pm
index-row rows f pm clear mine h = elim (index_sound _ rows [] pm h) [
  | inl (there, same) ↦
      let (schema, field) =
        join_colon_injective pm.schema_id f.schema_id pm.field_name f.field_name
          (All-mem (λ p. HasNoColon p.schema_id) rows clear there) mine same in
      record { listed = there; schema = schema; field = field }
  | inr nothing ↦ absurd (unfold lookup in cc nothing)
]
