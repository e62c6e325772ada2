-- ===== src/Policy/Tests.antt =====
-- Runs of the policy decision point's functions, and instances of their theorems.
use opendif_core.Base.{
  HasNoColon, List, Memᴰ, String, [], elem, err, false, insert, is_not_colon, join_colon, lookup,
  none, ok, refl, some, true, ◌*◌, ◌+◌, ◌↔◌, ◌∷◌, ◌≡◌,
}
use opendif_core.Policy.AllowLists.{expiry, grant, grant_all}
use opendif_core.Policy.Answered.{IsAnswered, decide-IsAnswered}
use opendif_core.Policy.Decided.{EachRow, decide_flags, decide_sound}
use opendif_core.Policy.Decision.{decide, judge, judge_fields, no_findings, schema_ids, to_response}
use opendif_core.Policy.Deleted.{plan_deletes}
use opendif_core.Policy.Granted.{IsGranted, grant_all_entries}
use opendif_core.Policy.Models.{
  AllowListEntry, FieldRef, PolicyDecisionRequest, PolicyDecisionResponse, PolicyMetadata,
  PolicyMetadataCreateRequest, PolicyMetadataCreateRequestRecord, index_metadata,
  validate_owner_constraint,
}
use opendif_core.Policy.Sync.{ids_to_delete, index_existing, merge, plan, process, process_all}
use opendif_core.Policy.Synced.{names, plan_last}
use opendif_core.Policy.Verdicts.{Each, HasNotLapsed, IsFree, IsListed}

abbrev ent : AllowListEntry
ent = record { expires_at = 50; updated_at = 3 }

abbrev row : String → PolicyMetadata
row name = record {
  id = "m1";
  schema_id = "s1";
  field_name = name;
  display_name = none;
  description = none;
  source = "primary";
  is_owner = true;
  access_control_type = "public";
  allow_list = ("app1", ent) ∷ [];
  owner = none;
  created_at = 1;
  updated_at = 1;
}

abbrev ref : String → FieldRef
ref name = record { field_name = name; schema_id = "s1" }

abbrev two_rows : List PolicyMetadata
two_rows = row "nic" ∷ row "address" ∷ []

abbrev ask_for : String → PolicyDecisionRequest
ask_for app = record { application_id = app; required_fields = ref "nic" ∷ ref "address" ∷ [] }

abbrev all_clear : PolicyDecisionResponse
all_clear = to_response no_findings

service : Unit {0}
unfolding decide judge judge_fields index_metadata join_colon lookup insert grant_all grant plan
    process process_all index_existing validate_owner_constraint schema_ids expiry
service = tt

clear_test : decide two_rows (λ i. 50) (ask_for "app1") ≡ ok all_clear
unfolding service
clear_test = refl

unknown_field_test : decide [] (λ i. 50) (ask_for "app1") ≡ err (ref "nic")
unfolding service
unknown_field_test = refl

schema_ids_test : schema_ids (ref "nic" ∷ ref "address" ∷ []) ≡ ("s1" ∷ [])
unfolding service
schema_ids_test = refl

-- The duration "30d" is a calendar month.
month_test : expiry (λ t y m. t + 365 * y + 31 * m) "30d" 100 ≡ some 131
unfolding service
month_test = refl

owner_test : validate_owner_constraint (row "nic") ≡ true
unfolding service
owner_test = refl

decide_flags_example :
    ((all_clear.app_authorized ≡ true)
      ↔ Each
          (index_metadata two_rows [])
          (λ t pm. IsListed "app1" pm)
          (λ i. 50)
          0
          (ask_for "app1").required_fields)
    × ((all_clear.app_access_expired ≡ false)
        ↔ Each
            (index_metadata two_rows [])
            (HasNotLapsed "app1")
            (λ i. 50)
            0
            (ask_for "app1").required_fields)
unfolding service
decide_flags_example = decide_flags two_rows (λ i. 50) (ask_for "app1") refl

s1 : HasNoColon "s1"
s1 = (is_not_colon "s" refl, (is_not_colon "1" refl, tt))

decide_sound_example : EachRow two_rows (IsFree "app1") (λ i. 50) 0 (ask_for "app1").required_fields
unfolding service
decide_sound_example =
    decide_sound two_rows (λ i. 50) (ask_for "app1") (((s1, (s1, tt)), (s1, (s1, tt)))) refl refl
      refl refl

abbrev nic_record : PolicyMetadataCreateRequestRecord
nic_record = record {
  field_name = "nic";
  display_name = some "NIC";
  description = none;
  source = "fallback";
  is_owner = false;
  access_control_type = "restricted";
  owner = some "citizen";
}

plan_last_example :
    lookup "nic"
      (plan
        (λ i. "u")
        9
        (record { schema_id = "s1"; records = nic_record ∷ nic_record ∷ [] })
        two_rows).existing
    ≡ some (merge 9 nic_record (row "nic"))
unfolding service
plan_last_example =
    plan_last (λ i. "u") 9 "s1" two_rows (nic_record ∷ []) nic_record [] (row "nic") refl refl

grant_all_entries_example :
    (pm' : PolicyMetadata) × (lookup "s1:nic"
        (grant_all "app2" ent (ref "nic" ∷ []) (index_metadata two_rows []))
      ≡ some pm')
    × IsGranted "app2" ent (ref "nic" ∷ []) "s1:nic" (row "nic") pm'
unfolding service
grant_all_entries_example =
    grant_all_entries "app2" ent (ref "nic" ∷ []) "s1:nic" (index_metadata two_rows []) (row "nic")
      refl

decide-IsAnswered_example :
    IsAnswered
      (index_metadata two_rows [])
      (λ i. 50)
      (ask_for "app1").required_fields
      (decide two_rows (λ i. 50) (ask_for "app1"))
decide-IsAnswered_example = decide-IsAnswered two_rows (λ i. 50) (ask_for "app1")

abbrev nic_only : PolicyMetadataCreateRequest
nic_only = record { schema_id = "s1"; records = nic_record ∷ [] }

abbrev other_id : List PolicyMetadata
other_id = row "nic" ∷ record (row "address") { id = "m2" } ∷ []

deletes_test :
    ids_to_delete
      (plan (λ i. "u") 9 nic_only other_id).processed
      (plan (λ i. "u") 9 nic_only other_id).existing
    ≡ "m2" ∷ []
unfolding service ids_to_delete
deletes_test = refl

plan_deletes_example :
    ((n : String) (pm : PolicyMetadata)
      → lookup n (index_existing other_id []) ≡ some pm
      → elem n (names nic_only.records) ≡ false
      → elem pm.id (
          ids_to_delete
            (plan (λ i. "u") 9 nic_only other_id).processed
            (plan (λ i. "u") 9 nic_only other_id).existing)
        ≡ true)
    × ((id : String)
        → elem id (
            ids_to_delete
              (plan (λ i. "u") 9 nic_only other_id).processed
              (plan (λ i. "u") 9 nic_only other_id).existing)
          ≡ true
        → (n : String) × (pm : PolicyMetadata) × Memᴰ
            (n, pm)
            (plan (λ i. "u") 9 nic_only other_id).existing
          × (elem n (names nic_only.records) ≡ false)
          × (pm.id ≡ id))
plan_deletes_example = plan_deletes (λ i. "u") 9 nic_only other_id
