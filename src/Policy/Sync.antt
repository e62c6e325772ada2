-- ===== src/Policy/Sync.antt =====
-- CreatePolicyMetadata: exchange/policy-decision-point/v1/services/policy_metadata_service.go.
-- A pointer into `existingMetadata` is the field name under which the map holds its target.
use opendif_core.Base.{
  Dict, List, Option, String, [], elem, if◌then◌else◌, insert, is_empty, lookup, none, some, ℕ,
  ◌++◌, ◌+◌, ◌∷◌,
}
use opendif_core.Policy.Database.{PolicyDb, ◌>>=◌}
use opendif_core.Policy.Models.{
  PolicyMetadata, PolicyMetadataCreateRequest, PolicyMetadataCreateRequestRecord,
}

-- The variables of the loop over the request's records.
pub record Work : Type 0 where
  pub existing : Dict PolicyMetadata
  pub new_records : List PolicyMetadata
  pub updated : List String
  pub processed : List String

-- the loop that fills existingMap
unfoldable pub index_existing : List PolicyMetadata → Dict PolicyMetadata → Dict PolicyMetadata
index_existing [] m = m
index_existing (pm ∷ pms) m = index_existing pms (insert pm.field_name pm m)

-- the assignments to an existing record
abbrev pub merge : ℕ → PolicyMetadataCreateRequestRecord → PolicyMetadata → PolicyMetadata
merge now r pm = record pm {
  display_name = r.display_name;
  description = r.description;
  source = r.source;
  is_owner = r.is_owner;
  access_control_type = r.access_control_type;
  owner = r.owner;
  updated_at = now;
}

-- the literal for a new record
abbrev pub fresh : String → ℕ → String → PolicyMetadataCreateRequestRecord → PolicyMetadata
fresh id now schema_id r = record {
  id = id;
  schema_id = schema_id;
  field_name = r.field_name;
  display_name = r.display_name;
  description = r.description;
  source = r.source;
  is_owner = r.is_owner;
  access_control_type = r.access_control_type;
  allow_list = [];
  owner = r.owner;
  created_at = now;
  updated_at = now;
}

-- the body of the loop; `id` is what `uuid.New` gives in this round
unfoldable pub process : String → ℕ → String → PolicyMetadataCreateRequestRecord → Work → Work
process id now schema_id r w = elim (lookup r.field_name w.existing) [
  | some pm ↦ record w {
    existing = insert r.field_name (merge now r pm) w.existing;
    updated = w.updated ++ r.field_name ∷ [];
    processed = r.field_name ∷ w.processed;
  }
  | none ↦ record w {
    new_records = w.new_records ++ fresh id now schema_id r ∷ [];
    processed = r.field_name ∷ w.processed;
  }
]

-- the loop; `ids i` is the i-th reading of `uuid.New`
unfoldable pub process_all :
    (ℕ → String) → ℕ → String → ℕ → List PolicyMetadataCreateRequestRecord → Work → Work
process_all ids now schema_id i [] w = w
process_all ids now schema_id i (r ∷ rs) w =
    process_all ids now schema_id (i + 1) rs (process (ids i) now schema_id r w)

-- the ids of the existing records that the request does not name, in the map's order
unfoldable pub ids_to_delete : List String → Dict PolicyMetadata → List String
ids_to_delete processed [] = []
ids_to_delete processed ((name, pm) ∷ m) =
    let rest = ids_to_delete processed m in if elem name processed then rest else pm.id ∷ rest

-- the targets of the pointers, read after the loop
unfoldable pub targets : Dict PolicyMetadata → List String → List PolicyMetadata
targets m [] = []
targets m (name ∷ names) = elim (lookup name m) [
  | none ↦ targets m names
  | some pm ↦ pm ∷ targets m names
]

unfoldable pub plan : (ℕ → String) → ℕ → PolicyMetadataCreateRequest → List PolicyMetadata → Work
plan ids now req rows =
    process_all ids now req.schema_id 0 req.records
      (record { existing = index_existing rows []; new_records = []; updated = []; processed = [] })

-- a bulk call, which is made on a list that is not empty
abbrev pub unless_empty : {A S : Type 0} → List A → (S → Option S) → S → Option S
unless_empty xs call s = if is_empty xs then some s else call s

module _ (db : PolicyDb) where
  open db use {State, rows_of_schema, begin, delete_ids, create_all, save_all, commit}

  -- the writes of the transaction
  unfoldable pub write_plan : Work → State → Option State
  write_plan w s = do
    s₁ ←
        unless_empty (ids_to_delete w.processed w.existing)
          (delete_ids (ids_to_delete w.processed w.existing)) s
    s₂ ← unless_empty w.new_records (create_all w.new_records) s₁
    s₃ ← unless_empty w.updated (save_all (targets w.existing w.updated)) s₂
    commit s₃

  -- the transaction, with the records for the response
  unfoldable pub create_tx :
      (ℕ → String) → ℕ → PolicyMetadataCreateRequest → State → Option (List PolicyMetadata × State)
  create_tx ids now req s = do
    tx ← begin s
    rows ← rows_of_schema req.schema_id tx
    let w = plan ids now req rows
    s' ← write_plan w tx
    some (w.new_records ++ targets w.existing w.updated, s')

  -- CreatePolicyMetadata: the new and the updated records, or `none` for an error, which rolls back
  unfoldable pub create_policy_metadata :
      (ℕ → String) → ℕ → PolicyMetadataCreateRequest → State → Option (List PolicyMetadata) × State
  create_policy_metadata ids now req s = elim (create_tx ids now req s) [
    | none ↦ (none, s)
    | some (records, s') ↦ (some records, s')
  ]
