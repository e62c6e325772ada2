-- ===== src/Policy/Decision.antt =====
-- GetPolicyDecision: exchange/policy-decision-point/v1/services/policy_metadata_service.go.
-- The rows that the query returns are an argument; `now i` is the clock's reading for the i-th
-- required field.
use opendif_core.Base.{
  Dict, List, Result, String, [], elem, err, if◌then◌else◌, is_empty, lookup, ltb, map_err, none,
  not, ok, some, ℕ, ◌&&◌, ◌++◌, ◌+◌, ◌==◌, ◌>>=◌, ◌∷◌,
}
use opendif_core.Policy.Database.{PolicyDb}
use opendif_core.Policy.Models.{
  FieldRef, PolicyDecisionRequest, PolicyDecisionResponse, PolicyDecisionResponseFieldRecord,
  PolicyMetadata, access_control_restricted, index_metadata, key,
}

-- what the loop collects
pub record Findings : Type 0 where
  pub consent_required : List PolicyDecisionResponseFieldRecord
  pub unauthorized : List PolicyDecisionResponseFieldRecord
  pub expired : List PolicyDecisionResponseFieldRecord

-- the record that each branch appends
abbrev pub to_field_record : PolicyMetadata → PolicyDecisionResponseFieldRecord
to_field_record pm = record {
  field_name = pm.field_name;
  schema_id = pm.schema_id;
  display_name = pm.display_name;
  description = pm.description;
  owner = pm.owner;
}

-- the body of the loop, for a field whose metadata exists
unfoldable pub judge : String → ℕ → PolicyMetadata → Findings → Findings
judge application_id now pm fs = elim (lookup application_id pm.allow_list) [
  | none ↦ record fs { unauthorized = fs.unauthorized ++ to_field_record pm ∷ [] }
  | some entry ↦
      if ltb entry.expires_at now
      then record fs { expired = fs.expired ++ to_field_record pm ∷ [] }
      else if not pm.is_owner && pm.access_control_type == access_control_restricted
      then record fs { consent_required = fs.consent_required ++ to_field_record pm ∷ [] }
      else fs
]

-- the loop over the required fields; the error names the field with no metadata
unfoldable pub judge_fields :
    Dict PolicyMetadata → String → (ℕ → ℕ) → ℕ → List FieldRef → Findings → Result FieldRef Findings
judge_fields m application_id now i [] fs = ok fs
judge_fields m application_id now i (f ∷ rest) fs = elim (lookup (key f.schema_id f.field_name) m) [
  | none ↦ err f
  | some pm ↦ judge_fields m application_id now (i + 1) rest (judge application_id (now i) pm fs)
]

abbrev pub no_findings : Findings
no_findings = record { consent_required = []; unauthorized = []; expired = [] }

abbrev pub to_response : Findings → PolicyDecisionResponse
to_response fs = record {
  app_authorized = is_empty fs.unauthorized;
  unauthorized_fields = fs.unauthorized;
  app_access_expired = not (is_empty fs.expired);
  expired_fields = fs.expired;
  app_requires_owner_consent = not (is_empty fs.consent_required);
  consent_required_fields = fs.consent_required;
}

-- GetPolicyDecision, after its query
unfoldable pub decide :
    List PolicyMetadata → (ℕ → ℕ) → PolicyDecisionRequest → Result FieldRef PolicyDecisionResponse
decide all_metadata now req = do
  fs ←
      judge_fields (index_metadata all_metadata []) req.application_id now 0 req.required_fields
        no_findings
  ok (to_response fs)

-- the keys of schemaIDSet, which the service reads in the order that ranging over the map takes
unfoldable pub schema_ids : List FieldRef → List String
schema_ids [] = []
schema_ids (f ∷ fs) =
    let rest = schema_ids fs in if elem f.schema_id rest then rest else f.schema_id ∷ rest

pub data DecisionError : Type 0 where
  query_failed : DecisionError
  metadata_missing : FieldRef → DecisionError

module _ (db : PolicyDb) where
  open db use {State, rows_of_schemas}

  -- GetPolicyDecision
  unfoldable pub get_policy_decision :
      (ℕ → ℕ) → PolicyDecisionRequest → State → Result DecisionError PolicyDecisionResponse
  get_policy_decision now req s = elim (rows_of_schemas (schema_ids req.required_fields) s) [
    | none ↦ err query_failed
    | some rows ↦ map_err metadata_missing (decide rows now req)
  ]
