-- ===== src/Policy/AllowLists.antt =====
-- UpdateAllowList: exchange/policy-decision-point/v1/services/policy_metadata_service.go.
-- A pointer into the rows of the query is the key under which policyMap holds its target.
-- `add_date t years months` is `t.AddDate(years, months, 0)` of the time package.
use opendif_core.Base.{
  Bool, Dict, List, Option, Result, String, [], err, has_key, if◌then◌else◌, insert, is_empty,
  lookup, none, not, ok, some, true, ℕ, ◌&&◌, ◌==◌, ◌∷◌,
}
use opendif_core.Policy.Database.{PolicyDb, ◌>>=◌}
use opendif_core.Policy.Models.{
  AllowListEntry, AllowListUpdateRequest, AllowListUpdateResponseRecord, FieldRef, PolicyMetadata,
  grant_duration_one_month, grant_duration_one_year, index_metadata, key,
}

pub data AllowListError : Type 0 where
  fetch_failed update_failed invalid_grant_duration : AllowListError
  metadata_not_found : AllowListError

abbrev pub ref_key : FieldRef → String
ref_key f = key f.schema_id f.field_name

-- every requested key is in policyMap
unfoldable pub all_known : Dict PolicyMetadata → List FieldRef → Bool
all_known m [] = true
all_known m (f ∷ fs) = has_key (ref_key f) m && all_known m fs

module _ (add_date : ℕ → (years months : ℕ) → ℕ) where
  -- the switch on the grant duration
  unfoldable pub expiry : String → ℕ → Option ℕ
  expiry grant_duration now =
      if grant_duration == grant_duration_one_month
      then some (add_date now 0 1)
      else if grant_duration == grant_duration_one_year
      then some (add_date now 1 0)
      else none

-- the write of one round through the pointer
unfoldable pub grant :
    String → AllowListEntry → FieldRef → Dict PolicyMetadata → Dict PolicyMetadata
grant application_id entry f m = elim (lookup (ref_key f) m) [
  | none ↦ m
  | some pm ↦
      insert (ref_key f) (record pm { allow_list = insert application_id entry pm.allow_list }) m
]

-- the loop that updates the records in memory
unfoldable pub grant_all :
    String → AllowListEntry → List FieldRef → Dict PolicyMetadata → Dict PolicyMetadata
grant_all application_id entry [] m = m
grant_all application_id entry (f ∷ fs) m =
    grant_all application_id entry fs (grant application_id entry f m)

-- the records of the response
unfoldable pub to_reply : AllowListEntry → List FieldRef → List AllowListUpdateResponseRecord
to_reply entry [] = []
to_reply entry (f ∷ fs) =
    record {
      field_name = f.field_name;
      schema_id = f.schema_id;
      expires_at = entry.expires_at;
      updated_at = entry.updated_at;
    }
    ∷ to_reply entry fs

module _ (db : PolicyDb) (add_date : ℕ → (years months : ℕ) → ℕ) where
  open db use {State, rows_of_pairs, begin, update_allow_list, commit}

  -- the loop that writes each pointer's target
  unfoldable pub write_grants : ℕ → Dict PolicyMetadata → List FieldRef → State → Option State
  write_grants now m [] s = some s
  write_grants now m (f ∷ fs) s = elim (lookup (ref_key f) m) [
    | none ↦ none
    | some pm ↦ do
      s' ← update_allow_list (record pm { updated_at = now }) s
      write_grants now m fs s'
  ]

  -- the transaction
  unfoldable pub grant_tx : ℕ → Dict PolicyMetadata → List FieldRef → State → Option State
  grant_tx now m fs s = do tx ← begin s; s' ← write_grants now m fs tx; commit s'

  -- UpdateAllowList, after its checks
  unfoldable pub update_granted :
      AllowListUpdateRequest
      → ℕ
      → ℕ
      → Dict PolicyMetadata
      → State
      → Result AllowListError (List AllowListUpdateResponseRecord) × State
  update_granted req now expires_at m s =
      let entry : AllowListEntry = record { expires_at = expires_at; updated_at = now } in
      elim (grant_tx now (grant_all req.application_id entry req.records m) req.records s) [
        | none ↦ (err update_failed, s)
        | some s' ↦ (ok (to_reply entry req.records), s')
      ]

  -- UpdateAllowList, after its query
  unfoldable pub update_known :
      AllowListUpdateRequest
      → ℕ
      → List PolicyMetadata
      → State
      → Result AllowListError (List AllowListUpdateResponseRecord) × State
  update_known req now rows s =
      let m = index_metadata rows [] in
      if not (all_known m req.records)
      then (err metadata_not_found, s)
      else elim (expiry add_date req.grant_duration now) [
        | none ↦ (err invalid_grant_duration, s)
        | some expires_at ↦ update_granted req now expires_at m s
      ]

  -- UpdateAllowList
  unfoldable pub update_allow_lists :
      AllowListUpdateRequest
      → ℕ
      → State
      → Result AllowListError (List AllowListUpdateResponseRecord) × State
  update_allow_lists req now s =
      if is_empty req.records then (ok [], s) else elim (rows_of_pairs req.records s) [
        | none ↦ (err fetch_failed, s)
        | some rows ↦ update_known req now rows s
      ]
