-- ===== src/Policy/Synced.antt =====
-- What CreatePolicyMetadata plans to write.
use opendif_core.Base.{
  Bool-cases, List, Option-cases, String, [], ap, arith, elem, eq_iff, eq_refl, false, inl, inr,
  lookup, lookup-insert, refl, some, subst, sym, ℕ, ◌++◌, ◌+◌, ◌==◌, ◌∙◌, ◌∷◌, ◌≡◌,
}
use opendif_core.Policy.Models.{PolicyMetadata, PolicyMetadataCreateRequestRecord}
use opendif_core.Policy.Sync.{Work, index_existing, merge, plan, process, process_all}

abbrev pub names : List PolicyMetadataCreateRequestRecord → List String
names [] = []
names (r ∷ rs) = r.field_name ∷ names rs

-- `q` is `pm` but for what a request sets.
record SameCore (pm q : PolicyMetadata) : Type 0 where
  id : q.id ≡ pm.id
  schema_id : q.schema_id ≡ pm.schema_id
  field_name : q.field_name ≡ pm.field_name
  allow_list : q.allow_list ≡ pm.allow_list
  created_at : q.created_at ≡ pm.created_at

merge-core :
    (now : ℕ) (r : PolicyMetadataCreateRequestRecord) (pm q : PolicyMetadata)
    → SameCore pm q
    → merge now r q ≡ merge now r pm
merge-core now r pm q c = ground arith

module _ (now : ℕ) (schema_id : String) where
  process-other :
      (id : String) (r : PolicyMetadataCreateRequestRecord) (w : Work) (n : String)
      → (r.field_name == n) ≡ false
      → lookup n (process id now schema_id r w).existing ≡ lookup n w.existing
  unfolding process
  process-other id r w n h = elim (Option-cases (lookup r.field_name w.existing)) [
    | inl lost ↦ rw (lost, process)
    | inr (q, e) ↦
        rw (e, process) (lookup-insert r.field_name n (merge now r q) w.existing ∙ (rw h))
  ]

  process-same :
      (id : String) (r : PolicyMetadataCreateRequestRecord) (w : Work) (q : PolicyMetadata)
      → lookup r.field_name w.existing ≡ some q
      → lookup r.field_name (process id now schema_id r w).existing ≡ some (merge now r q)
  unfolding process
  process-same id r w q e =
      rw (e, process)
        (lookup-insert r.field_name r.field_name (merge now r q) w.existing ∙ (rw eq_refl))

  process-core :
      (id : String) (r : PolicyMetadataCreateRequestRecord) (w : Work) (n : String)
      (pm q : PolicyMetadata)
      → lookup n w.existing ≡ some q
      → SameCore pm q
      → (q' : PolicyMetadata) × (lookup n (process id now schema_id r w).existing ≡ some q')
        × SameCore pm q'
  process-core id r w n pm q e c = elim (Bool-cases (r.field_name == n)) [
    | inr other ↦ (q, process-other id r w n other ∙ e, c)
    | inl same ↦
        let eq = (eq_iff r.field_name n).0 same in
        (
          merge now r q,
          subst (λ k. lookup k (process id now schema_id r w).existing ≡ some (merge now r q)) eq
              (process-same id r w q (subst (λ k. lookup k w.existing ≡ some q) (sym eq) e)),
          record {
            id = c.id;
            schema_id = c.schema_id;
            field_name = c.field_name;
            allow_list = c.allow_list;
            created_at = c.created_at;
          },
        )
  ]

  module _ (ids : ℕ → String) where
    pub process_all-other :
        (i : ℕ) (rs : List PolicyMetadataCreateRequestRecord) (w : Work) (n : String)
        → elem n (names rs) ≡ false
        → lookup n (process_all ids now schema_id i rs w).existing ≡ lookup n w.existing
    unfolding process_all
    process_all-other i [] w n h = refl
    process_all-other i (r ∷ rs) w n h =
        process_all-other (i + 1) rs _ n (ground arith) ∙ process-other (ids i) r w n (ground arith)

    -- The last record of a request that names a field with metadata is what its metadata becomes.
    process_all-last :
        (i : ℕ) (rs₁ : List PolicyMetadataCreateRequestRecord)
        (r : PolicyMetadataCreateRequestRecord) (rs₂ : List PolicyMetadataCreateRequestRecord)
        (w : Work) (pm q : PolicyMetadata)
        → elem r.field_name (names rs₂) ≡ false
        → lookup r.field_name w.existing ≡ some q
        → SameCore pm q
        → lookup r.field_name (process_all ids now schema_id i (rs₁ ++ r ∷ rs₂) w).existing
          ≡ some (merge now r pm)
    unfolding process_all
    process_all-last i [] r rs₂ w pm q last e c =
        process_all-other (i + 1) rs₂ _ r.field_name last
        ∙ process-same (ids i) r w q e
        ∙ ap some (merge-core now r pm q c)
    process_all-last i (g ∷ rs₁) r rs₂ w pm q last e c =
        let (q', e', c') = process-core (ids i) g w r.field_name pm q e c in
        process_all-last (i + 1) rs₁ r rs₂ _ pm q' last e' c'

-- the old metadata with the attributes that a record of a request gives, at a time
abbrev pub described : ℕ → PolicyMetadataCreateRequestRecord → PolicyMetadata → PolicyMetadata
described now r pm = record pm {
  display_name = r.display_name;
  description = r.description;
  source = r.source;
  is_owner = r.is_owner;
  access_control_type = r.access_control_type;
  owner = r.owner;
  updated_at = now;
}

-- Where the query finds metadata for a field, and `r` is the last record of the request that
-- names the field, the plan holds for the field the old metadata with the attributes of `r` and
-- the time: its id, schema, name, time of creation and allow list are those of the old metadata.
pub plan_last :
    (ids : ℕ → String) (now : ℕ) (schema_id : String) (rows : List PolicyMetadata)
    (rs₁ : List PolicyMetadataCreateRequestRecord) (r : PolicyMetadataCreateRequestRecord)
    (rs₂ : List PolicyMetadataCreateRequestRecord) (pm : PolicyMetadata)
    → elem r.field_name (names rs₂) ≡ false
    → lookup r.field_name (index_existing rows []) ≡ some pm
    → lookup r.field_name
        (plan ids now (record { schema_id = schema_id; records = rs₁ ++ r ∷ rs₂ }) rows).existing
      ≡ some (described now r pm)
unfolding plan
plan_last ids now schema_id rows rs₁ r rs₂ pm last e =
    process_all-last now schema_id ids 0 rs₁ r rs₂ _ pm pm last e (record {
      id = refl;
      schema_id = refl;
      field_name = refl;
      allow_list = refl;
      created_at = refl;
    })
