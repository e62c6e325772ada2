-- ===== src/Consent/Tests.antt =====
-- The consent engine on concrete requests, over the table in memory.
use opendif_core.Base.{
  List, Option, String, [], if◌then◌else◌, map, none, ok, refl, some, ℕ, ◌==◌, ◌↔◌, ◌∷◌, ◌≡◌,
}
use opendif_core.Consent.Create.{
  create_after_revoke, create_consent_record, create_or_reuse, create_validated, insert_consent,
  revoke_and_create_consent, revoke_and_create_selected, revoke_and_create_tx,
}
use opendif_core.Consent.Creation.{IsServed, create_consent_record-IsServed}
use opendif_core.Consent.Expiry.{IsAnswer, get_consent_internal_view-IsAnswer}
use opendif_core.Consent.Lifecycle.{Changes, IsWellFormedRow}
use opendif_core.Consent.Memory.{find, in_memory, memory, memory-IsTable, memory_time}
use opendif_core.Consent.Models.{
  ConsentField, ConsentPortalActionRequest, ConsentRecord, ConsentResponseInternalView,
  CreateConsentRequest, equals, portal_failed, revoke_failed, stamped, to_internal_view,
}
use opendif_core.Consent.Outcomes.{Outcome}
use opendif_core.Consent.Portal.{IsValidAction, decided, update_consent_status-Outcome}
use opendif_core.Consent.Revocation.{IsActive, revoke_consent-Outcome}
use opendif_core.Consent.Rules.{
  Readings, are_consent_fields_equal, build_consent_record, is_valid_consent_portal_action,
  parse_grant_duration, validate_create_consent_request,
}
use opendif_core.Consent.Traces.{
  Call, create_call, decide_call, revoke_call, run, run-Changes, run-IsWellFormed, step,
}
use opendif_core.Consent.Updates.{
  apply_action, approved, revoke_consent, revoke_found, revoke_selected, revoke_tx, revoked,
  update_consent_status_by_portal_action, update_found, update_selected,
}
use opendif_core.Consent.Validation.{IsComplete, validate_create_consent_request_iff}
use opendif_core.Consent.Views.{
  answer_selection, get_consent_internal_view, refresh_consent, save_expired, select_consent,
}

-- every function that a run of the service computes with
service : Unit {0}
unfolding create_consent_record create_validated validate_create_consent_request
    get_consent_internal_view answer_selection select_consent refresh_consent save_expired
    create_or_reuse are_consent_fields_equal equals revoke_and_create_consent revoke_and_create_tx
    revoke_and_create_selected create_after_revoke insert_consent build_consent_record
    to_internal_view update_consent_status_by_portal_action update_selected update_found
    apply_action is_valid_consent_portal_action parse_grant_duration revoke_consent revoke_tx
    revoke_selected revoke_found step run in_memory
service = tt

abbrev parse : String → Option String
parse id = if id == "" then none else some id

abbrev base_url : String
base_url = "https://portal"

abbrev nic : ConsentField
nic = record {
  field_name = "nic";
  schema_id = "s1";
  display_name = some "NIC";
  description = none;
  owner = "citizen";
}

abbrev name : ConsentField
name = record {
  field_name = "name";
  schema_id = "s1";
  display_name = none;
  description = none;
  owner = "citizen";
}

abbrev ask : List ConsentField → CreateConsentRequest
ask fs = record {
  app_id = "app1";
  app_name = none;
  consent_requirement = record {
    owner = "citizen";
    owner_id = "o1";
    owner_email = "o1@x";
    fields = fs;
  };
  grant_duration = some "PT6H";
  consent_type = none;
}

abbrev reads : ℕ → String → Readings
reads t id = record {
  pending_check = t;
  grant_check = t;
  revoke_time = t;
  create_time = t;
  new_id = id;
}

abbrev first_state : List ConsentRecord
first_state = (create_consent_record memory parse base_url (reads 5 "c1") (ask (nic ∷ [])) []).1

abbrev c1 : ConsentRecord
c1 = record {
  consent_id = "c1";
  owner_id = "o1";
  owner_email = "o1@x";
  app_id = "app1";
  app_name = none;
  status = "pending";
  type = "realtime";
  created_at = 5;
  updated_at = 5;
  pending_expires_at = some 3600000000005;
  grant_expires_at = none;
  grant_duration = "PT6H";
  fields = nic ∷ [];
  session_id = none;
  consent_portal_url = "https://portal?consentId=c1";
  updated_by = none;
}

-- A request is stored; the same request is answered with it; other fields replace it.
create_tests :
    (first_state ≡ c1 ∷ [])
    × ((create_consent_record memory parse base_url (reads 6 "c2") (ask (nic ∷ [])) (c1 ∷ [])).1
        ≡ c1 ∷ [])
    × (map {B = String × String}
          (λ r. (r.consent_id, r.status))
          (create_consent_record memory parse base_url
            (reads 6 "c2")
            (ask (nic ∷ name ∷ []))
            (c1 ∷ [])).1
        ≡ ("c1", "revoked") ∷ ("c2", "pending") ∷ [])
unfolding service
create_tests = (refl, refl, refl)

abbrev validates : CreateConsentRequest
validates = ask (nic ∷ [])

abbrev c1_approved : ConsentRecord
c1_approved = stamped memory_time (approved 7 "o1@x" c1)

abbrev c1_revoked : ConsentRecord
c1_revoked = stamped memory_time (revoked 8 "o1@x" c1_approved)

abbrev decision : String → ConsentPortalActionRequest
decision action = record { consent_id = "c1"; action = action; updated_by = "o1@x" }

-- The portal approves, the consent is revoked, and the portal approves it once more.
update_tests :
    (update_consent_status_by_portal_action memory parse (decision "approve") 7 (c1 ∷ [])
      ≡ (none, c1_approved ∷ []))
    × (revoke_consent memory parse "c1" "o1@x" 8 (c1_approved ∷ []) ≡ (none, c1_revoked ∷ []))
    × (revoke_consent memory parse "c1" "o1@x" 9 (c1_revoked ∷ [])
        ≡ (some (revoke_failed ∷ []), c1_revoked ∷ []))
    × (update_consent_status_by_portal_action memory parse (decision "hold") 7 (c1 ∷ [])
        ≡ (some (portal_failed ∷ []), c1 ∷ []))
unfolding service
update_tests = (refl, refl, refl, refl)

abbrev late : Readings
late = reads 3600000000006 "c2"

abbrev c1_view : ConsentResponseInternalView
c1_view = record { consent_id = "c1"; status = "expired"; consent_portal_url = none; fields = none }

-- A pending consent read after its deadline is shown and stored as expired.
read_test :
    get_consent_internal_view memory parse late (some "c1") none none none (c1 ∷ [])
    ≡ (ok c1_view, stamped memory_time (record c1 { status = "expired" }) ∷ [])
unfolding service
read_test = refl

validate_create_consent_request_iff_example :
    (validate_create_consent_request validates ≡ none) ↔ IsComplete validates
validate_create_consent_request_iff_example = validate_create_consent_request_iff validates

get_consent_internal_view-IsAnswer_example :
    IsAnswer memory parse find
      (some "c1")
      none
      none
      none
      late
      (c1 ∷ [])
      (get_consent_internal_view memory parse late (some "c1") none none none (c1 ∷ [])).1
      c1_view
unfolding service
get_consent_internal_view-IsAnswer_example =
    get_consent_internal_view-IsAnswer memory parse find memory-IsTable late (some "c1") none none
      none (c1 ∷ []) refl

abbrev pending_view : ConsentResponseInternalView
pending_view = record {
  consent_id = "c1";
  status = "pending";
  consent_portal_url = some "https://portal?consentId=c1";
  fields = some (nic ∷ []);
}

create_consent_record-IsServed_example :
    IsServed memory parse find
      (ask (nic ∷ []))
      (create_consent_record memory parse base_url (reads 5 "c1") (ask (nic ∷ [])) []).1
      pending_view
unfolding service
create_consent_record-IsServed_example =
    create_consent_record-IsServed memory parse find memory-IsTable base_url (reads 5 "c1")
      (ask (nic ∷ [])) [] refl

abbrev calls : List Call
calls =
    create_call (reads 5 "c1") (ask (nic ∷ []))
    ∷ decide_call (decision "approve") 7
    ∷ revoke_call "c1" "o1@x" 8
    ∷ create_call (reads 9 "c2") (ask (nic ∷ []))
    ∷ []

run-Changes_example : Changes (find [] "c1") (find (run memory parse base_url calls []) "c1")
run-Changes_example = run-Changes memory parse base_url find memory-IsTable calls [] "c1"

run-IsWellFormed_example : IsWellFormedRow (find (run memory parse base_url calls []) "c1")
unfolding in_memory
run-IsWellFormed_example =
    run-IsWellFormed memory parse base_url find memory-IsTable calls [] (λ id. tt) "c1"

revoke_consent-Outcome_example :
    Outcome memory parse find IsActive
      (revoked 8 "o1@x")
      "c1"
      (c1_approved ∷ [])
      (revoke_consent memory parse "c1" "o1@x" 8 (c1_approved ∷ []))
revoke_consent-Outcome_example =
    revoke_consent-Outcome memory parse find memory-IsTable "c1" "o1@x" 8 (c1_approved ∷ [])

update_consent_status-Outcome_example :
    Outcome memory parse find
      (IsValidAction (decision "approve"))
      (decided (decision "approve") 7)
      "c1"
      (c1 ∷ [])
      (update_consent_status_by_portal_action memory parse (decision "approve") 7 (c1 ∷ []))
update_consent_status-Outcome_example =
    update_consent_status-Outcome memory parse find memory-IsTable (decision "approve") 7 (c1 ∷ [])
