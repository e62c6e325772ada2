-- ===== src/Consent/HandlerTests.antt =====
-- Runs of the handlers of the consent engine over the table in memory, and an instance of the
-- theorem about UpdateConsent.
use opendif_core.Base.{
  Option, String, [], err, false, if◌then◌else◌, none, ok, refl, some, ◌==◌, ◌∷◌, ◌≡◌,
}
use opendif_core.Consent.Create.{create_consent_record, create_validated}
use opendif_core.Consent.Handlers.{
  InternalRequest, PortalRequest, Reply, UpdateReply, check_portal_request, internal_create_consent,
  internal_get_consent, portal_get_consent, portal_update_consent, read_owned, reply_created,
  reply_read, reply_updated, update_owned,
}
use opendif_core.Consent.Memory.{find, in_memory, memory, memory-IsTable}
use opendif_core.Consent.Models.{ConsentRecord, to_internal_view, to_portal_view}
use opendif_core.Consent.Owned.{OwnOutcome, portal_update_consent-OwnOutcome}
use opendif_core.Consent.Rules.{
  Readings, is_valid_consent_portal_action, parse_grant_duration, validate_create_consent_request,
}
use opendif_core.Consent.Updates.{
  apply_action, update_consent_status_by_portal_action, update_found, update_selected,
}
use opendif_core.Consent.Views.{
  answer_selection, get_consent_internal_view, get_consent_portal_view, refresh_consent,
  select_consent,
}

-- every function that a run of a handler computes with
service : Unit {0}
unfolding portal_get_consent portal_update_consent check_portal_request read_owned update_owned
    reply_updated internal_get_consent reply_read internal_create_consent reply_created
    get_consent_portal_view to_portal_view get_consent_internal_view answer_selection select_consent
    refresh_consent to_internal_view update_consent_status_by_portal_action update_selected
    update_found apply_action is_valid_consent_portal_action parse_grant_duration
    create_consent_record create_validated validate_create_consent_request in_memory
service = tt

-- stands for uuid.Parse: every text but "x" is an id
abbrev parse : String → Option String
parse id = if id == "x" then none else some id

abbrev c1 : ConsentRecord
c1 = record {
  consent_id = "c1";
  owner_id = "o1";
  owner_email = "o1@x";
  app_id = "app1";
  app_name = none;
  status = "pending";
  type = "realtime";
  created_at = 5;
  updated_at = 5;
  pending_expires_at = some 900;
  grant_expires_at = none;
  grant_duration = "PT6H";
  fields = [];
  session_id = none;
  consent_portal_url = "https://portal?consentId=c1";
  updated_by = none;
}

abbrev put_request :
    (consent_id : String) → (user_email action_body : Option String) → PortalRequest
put_request consent_id user_email action_body = record {
  method = "PUT";
  consent_id = consent_id;
  user_email = user_email;
  action_body = action_body;
  read_cancelled = false;
  write_cancelled = false;
}

abbrev status_after : PortalRequest → Reply UpdateReply
status_after rq = (portal_update_consent memory parse rq 7 (c1 ∷ [])).0

-- The owner approves; another user, a request with no user, one for an id that is none, one with
-- another action, one for a consent that the table has not, and another method are refused.
update_tests :
    (status_after (put_request "c1" (some "o1@x") (some "approve"))
      ≡ ok (200, record { message = "Consent updated successfully"; status = "approved" }))
    × (status_after (put_request "c1" (some "o2@x") (some "approve")) ≡ err (403, "FORBIDDEN"))
    × (status_after (put_request "c1" none (some "approve")) ≡ err (401, "UNAUTHORIZED"))
    × (status_after (put_request "x" (some "o1@x") (some "approve")) ≡ err (400, "BAD_REQUEST"))
    × (status_after (put_request "c1" (some "o1@x") (some "revoke")) ≡ err (400, "BAD_REQUEST"))
    × (status_after (put_request "c2" (some "o1@x") (some "approve"))
        ≡ err (404, "CONSENT_NOT_FOUND"))
    × (portal_get_consent memory parse (put_request "c1" (some "o1@x") none) (c1 ∷ [])
        ≡ err (405, "METHOD_NOT_ALLOWED"))
unfolding service
update_tests = (refl, refl, refl, refl, refl, refl, refl)

abbrev ask_internal : (method owner_email owner_id app_id : String) → InternalRequest
ask_internal method owner_email owner_id app_id = record {
  method = method;
  owner_email = owner_email;
  owner_id = owner_id;
  app_id = app_id;
  create_body = some (record {
    app_id = "";
    app_name = none;
    consent_requirement = record {
      owner = "citizen";
      owner_id = "o1";
      owner_email = "o1@x";
      fields = [];
    };
    grant_duration = none;
    consent_type = none;
  });
  cancelled = false;
}

abbrev reads : Readings
reads = record {
  pending_check = 7;
  grant_check = 7;
  revoke_time = 7;
  create_time = 7;
  new_id = "c2";
}

-- A consent is found under its owner's address or id; a request must name the application and an
-- owner; one to create a consent must be complete.
internal_tests :
    ((internal_get_consent memory parse (ask_internal "GET" "o1@x" "" "app1") reads (c1 ∷ [])).0
      ≡ ok (200, to_internal_view c1))
    × ((internal_get_consent memory parse (ask_internal "GET" "" "o1" "app1") reads (c1 ∷ [])).0
        ≡ ok (200, to_internal_view c1))
    × ((internal_get_consent memory parse (ask_internal "GET" "" "o2" "app1") reads (c1 ∷ [])).0
        ≡ err (404, "CONSENT_NOT_FOUND"))
    × ((internal_get_consent memory parse (ask_internal "GET" "" "" "app1") reads (c1 ∷ [])).0
        ≡ err (400, "BAD_REQUEST"))
    × ((internal_create_consent memory parse (ask_internal "POST" "" "" "") "" reads (c1 ∷ [])).0
        ≡ err (400, "BAD_REQUEST"))
unfolding service
internal_tests = (refl, refl, refl, refl, refl)

portal_update_consent-OwnOutcome_example :
    OwnOutcome memory parse find memory-IsTable
      (put_request "c1" (some "o1@x") (some "approve"))
      7
      (c1 ∷ [])
      (portal_update_consent memory parse
        (put_request "c1" (some "o1@x") (some "approve"))
        7
        (c1 ∷ []))
portal_update_consent-OwnOutcome_example =
    portal_update_consent-OwnOutcome memory parse find memory-IsTable
      (put_request "c1" (some "o1@x") (some "approve")) 7 (c1 ∷ [])
