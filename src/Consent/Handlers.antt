-- ===== src/Consent/Handlers.antt =====
-- PortalHandler and InternalHandler: exchange/consent-engine/v1/handlers/{portal_handler,
-- internal_handler}.go, over the service of Consent/{Views, Updates, Create}.antt.
-- A request is what the handlers read of it: the method, the path or query parameters, the user
-- that the middleware put into the context, and what `encoding/json` makes of the body, `none`
-- where it fails. Each look at `r.Context().Err()` is a field too: is the error not nil? The
-- texts of error replies are left out. No other request comes between the two calls of one.
use opendif_core.Base.{
  Bool, Option, Result, String, [], err, false, if◌then◌else◌, none, not, ok, some, true, ℕ, ◌&&◌,
  ◌==◌, ◌∷◌,
}
use opendif_core.Consent.Create.{create_consent_record, is_not_found}
use opendif_core.Consent.Database.{ConsentDb}
use opendif_core.Consent.Models.{
  ConsentResponseInternalView, ConsentResponsePortalView, CreateConsentRequest, Error,
  action_approve, action_reject, create_failed, portal_failed, status_approved, status_rejected,
}
use opendif_core.Consent.Rules.{Readings}
use opendif_core.Consent.Updates.{update_consent_status_by_portal_action}
use opendif_core.Consent.Views.{get_consent_internal_view, get_consent_portal_view}

-- the ErrorCode constants
abbrev pub code_consent_not_found : String
code_consent_not_found = "CONSENT_NOT_FOUND"

abbrev pub code_internal_error : String
code_internal_error = "INTERNAL_ERROR"

abbrev pub code_bad_request : String
code_bad_request = "BAD_REQUEST"

abbrev pub code_unauthorized : String
code_unauthorized = "UNAUTHORIZED"

abbrev pub code_forbidden : String
code_forbidden = "FORBIDDEN"

abbrev pub code_method_not_allowed : String
code_method_not_allowed = "METHOD_NOT_ALLOWED"

-- a status with an error code, as RespondWithError writes it, or a status with a payload, as
-- RespondWithJSON does
abbrev pub Reply : Type 0 → Type 0
Reply A = Result (ℕ × String) (ℕ × A)

pub record PortalRequest : Type 0 where
  pub method : String
  pub consent_id : String
  pub user_email : Option String
  pub action_body : Option String
  pub read_cancelled : Bool
  pub write_cancelled : Bool

pub record InternalRequest : Type 0 where
  pub method : String
  pub owner_email : String
  pub owner_id : String
  pub app_id : String
  pub create_body : Option CreateConsentRequest
  pub cancelled : Bool

pub record UpdateReply : Type 0 where
  pub message : String
  pub status : String

-- errors.Is(err, models.ErrPortalRequestFailed)
abbrev pub is_portal_failed : Error → Bool
is_portal_failed [] = false
is_portal_failed (portal_failed ∷ e) = true
is_portal_failed (_ ∷ e) = is_portal_failed e

-- errors.Is(err, models.ErrConsentCreateFailed)
abbrev pub is_create_failed : Error → Bool
is_create_failed [] = false
is_create_failed (create_failed ∷ e) = true
is_create_failed (_ ∷ e) = is_create_failed e

-- the reply to an error of a read
abbrev pub read_refused : Bool → Error → ℕ × String
read_refused cancelled e =
    if cancelled
    then (408, code_internal_error)
    else if is_not_found e
    then (404, code_consent_not_found)
    else (500, code_internal_error)

-- the reply to an error of UpdateConsentStatusByPortalAction
abbrev pub update_refused : Bool → Error → ℕ × String
update_refused cancelled e =
    if cancelled
    then (408, code_internal_error)
    else if is_not_found e
    then (404, code_consent_not_found)
    else if is_portal_failed e
    then (400, code_bad_request)
    else (500, code_internal_error)

-- the reply to an error of CreateConsentRecord
abbrev pub creation_refused : Bool → Error → ℕ × String
creation_refused cancelled e =
    if cancelled
    then (408, code_internal_error)
    else if is_create_failed e
    then (400, code_bad_request)
    else (500, code_internal_error)

-- statusMap[action]
abbrev pub status_of_action : String → String
status_of_action action =
    if action == action_approve
    then status_approved
    else if action == action_reject
    then status_rejected
    else ""

module _ (db : ConsentDb) (parse_uuid : String → Option String) where
  open db use {State}

  -- the checks with which both portal handlers begin: the method, the id and the user
  unfoldable pub check_portal_request : String → PortalRequest → Result (ℕ × String) String
  check_portal_request verb rq =
      if not (rq.method == verb)
      then err (405, code_method_not_allowed)
      else if rq.consent_id == ""
      then err (400, code_bad_request)
      else elim (parse_uuid rq.consent_id) [
        | none ↦ err (400, code_bad_request)
        | some u ↦ elim rq.user_email [ none ↦ err (401, code_unauthorized) | some mail ↦ ok mail ]
      ]

  -- the read of both portal handlers, and their check that the consent is the user's
  unfoldable pub read_owned :
      String → PortalRequest → State → Result (ℕ × String) ConsentResponsePortalView
  read_owned mail rq s = elim (get_consent_portal_view db parse_uuid rq.consent_id s) [
    | err e ↦ err (read_refused rq.read_cancelled e)
    | ok view ↦ if not (view.owner_email == mail) then err (403, code_forbidden) else ok view
  ]

  -- PortalHandler.GetConsent
  unfoldable pub portal_get_consent : PortalRequest → State → Reply ConsentResponsePortalView
  portal_get_consent rq s = elim (check_portal_request "GET" rq) [
    | err e ↦ err e
    | ok mail ↦ elim (read_owned mail rq s) [ err e ↦ err e | ok view ↦ ok (200, view) ]
  ]

  -- the end of UpdateConsent, after its call of UpdateConsentStatusByPortalAction
  unfoldable pub reply_updated : Bool → String → Option Error × State → Reply UpdateReply × State
  reply_updated cancelled action (some e, s) = (err (update_refused cancelled e), s)
  reply_updated cancelled action (none, s) = (
    ok (200, record { message = "Consent updated successfully"; status = status_of_action action }),
    s,
  )

  -- UpdateConsent, after it decoded the body
  unfoldable pub update_owned :
      String → String → PortalRequest → ℕ → State → Reply UpdateReply × State
  update_owned mail action rq now s =
      if not (action == action_approve) && not (action == action_reject)
      then (err (400, code_bad_request), s)
      else elim (read_owned mail rq s) [
        | err e ↦ (err e, s)
        | ok view ↦ reply_updated rq.write_cancelled action (
            update_consent_status_by_portal_action db parse_uuid
              (record { consent_id = rq.consent_id; action = action; updated_by = mail }) now s)
      ]

  -- PortalHandler.UpdateConsent; `now` is the clock that the service reads
  unfoldable pub portal_update_consent : PortalRequest → ℕ → State → Reply UpdateReply × State
  portal_update_consent rq now s = elim (check_portal_request "PUT" rq) [
    | err e ↦ (err e, s)
    | ok mail ↦ elim rq.action_body [
      | none ↦ (err (400, code_bad_request), s)
      | some action ↦ update_owned mail action rq now s
    ]
  ]

  -- the end of InternalHandler.GetConsent, after its call of GetConsentInternalView
  unfoldable pub reply_read :
      Bool
      → Result Error ConsentResponseInternalView × State
      → Reply ConsentResponseInternalView × State
  reply_read cancelled (err e, s) = (err (read_refused cancelled e), s)
  reply_read cancelled (ok view, s) = (ok (200, view), s)

  -- InternalHandler.GetConsent
  unfoldable pub internal_get_consent :
      InternalRequest → Readings → State → Reply ConsentResponseInternalView × State
  internal_get_consent rq rd s =
      if not (rq.method == "GET")
      then (err (405, code_method_not_allowed), s)
      else if rq.app_id == ""
      then (err (400, code_bad_request), s)
      else if rq.owner_email == "" && rq.owner_id == ""
      then (err (400, code_bad_request), s)
      else if not (rq.owner_email == "")
      then reply_read rq.cancelled (
          get_consent_internal_view db parse_uuid rd none none (some rq.owner_email)
            (some rq.app_id) s)
      else reply_read rq.cancelled (
          get_consent_internal_view db parse_uuid rd none (some rq.owner_id) none (some rq.app_id)
            s)

  -- the end of CreateConsent, after its call of CreateConsentRecord
  unfoldable pub reply_created :
      Bool
      → Result Error ConsentResponseInternalView × State
      → Reply ConsentResponseInternalView × State
  reply_created cancelled (err e, s) = (err (creation_refused cancelled e), s)
  reply_created cancelled (ok view, s) = (ok (201, view), s)

  -- InternalHandler.CreateConsent
  unfoldable pub internal_create_consent :
      InternalRequest → String → Readings → State → Reply ConsentResponseInternalView × State
  internal_create_consent rq base_url rd s =
      if not (rq.method == "POST")
      then (err (405, code_method_not_allowed), s)
      else elim rq.create_body [
        | none ↦ (err (400, code_bad_request), s)
        | some req ↦
            reply_created rq.cancelled (create_consent_record db parse_uuid base_url rd req s)
      ]
