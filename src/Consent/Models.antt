-- ===== src/Consent/Models.antt =====
-- The data of the consent engine: exchange/consent-engine/v1/models/{consent,dtos,constants}.go.
-- A `uuid.UUID` is its canonical text; a `time.Time` and a `time.Duration` are nanoseconds.
use opendif_core.Base.{
  Bool, List, Option, String, if◌then◌else◌, none, not, opt_eq, some, ℕ, ◌&&◌, ◌==◌, ◌||◌,
}

-- ConsentStatus, ConsentType, ConsentPortalAction and GrantDuration are named string constants.
abbrev pub status_pending : String
status_pending = "pending"

abbrev pub status_approved : String
status_approved = "approved"

abbrev pub status_rejected : String
status_rejected = "rejected"

abbrev pub status_expired : String
status_expired = "expired"

abbrev pub status_revoked : String
status_revoked = "revoked"

abbrev pub type_realtime : String
type_realtime = "realtime"

abbrev pub type_offline : String
type_offline = "offline"

abbrev pub action_approve : String
action_approve = "approve"

abbrev pub action_reject : String
action_reject = "reject"

abbrev pub duration_one_hour : String
duration_one_hour = "PT1H"

abbrev pub duration_six_hours : String
duration_six_hours = "PT6H"

abbrev pub duration_twelve_hours : String
duration_twelve_hours = "PT12H"

abbrev pub duration_one_day : String
duration_one_day = "P1D"

abbrev pub duration_seven_days : String
duration_seven_days = "P7D"

abbrev pub duration_thirty_days : String
duration_thirty_days = "P30D"

abbrev pub duration_default : String
duration_default = duration_one_hour

abbrev pub revoked_by_new_consent : String
revoked_by_new_consent = "System: revoked due to new consent with different fields"

-- The sentinel errors. `gorm_not_found` is `gorm.ErrRecordNotFound`, `cause` any other error.
pub data Sentinel : Type 0 where
  consent_not_found create_failed update_failed revoke_failed get_failed portal_failed : Sentinel
  gorm_not_found cause : Sentinel

-- An error is the list of the errors that its chain wraps (`%w`); messages are left out.
abbrev pub Error : Type 0
Error = List Sentinel

pub record ConsentField : Type 0 where
  pub field_name : String
  pub schema_id : String
  pub display_name : Option String
  pub description : Option String
  pub owner : String

-- ConsentField.Equals
unfoldable pub equals : ConsentField → ConsentField → Bool
equals a b =
    a.field_name == b.field_name
    && a.schema_id == b.schema_id
    && opt_eq a.display_name b.display_name
    && opt_eq a.description b.description
    && a.owner == b.owner

pub record ConsentRequirement : Type 0 where
  pub owner : String
  pub owner_id : String
  pub owner_email : String
  pub fields : List ConsentField

pub record CreateConsentRequest : Type 0 where
  pub app_id : String
  pub app_name : Option String
  pub consent_requirement : ConsentRequirement
  pub grant_duration : Option String
  pub consent_type : Option String

pub record ConsentPortalActionRequest : Type 0 where
  pub consent_id : String
  pub action : String
  pub updated_by : String

pub record ConsentRecord : Type 0 where
  pub consent_id : String
  pub owner_id : String
  pub owner_email : String
  pub app_id : String
  pub app_name : Option String
  pub status : String
  pub type : String
  pub created_at : ℕ
  pub updated_at : ℕ
  pub pending_expires_at : Option ℕ
  pub grant_expires_at : Option ℕ
  pub grant_duration : String
  pub fields : List ConsentField
  pub session_id : Option String
  pub consent_portal_url : String
  pub updated_by : Option String

-- the record under another time of its last update
abbrev pub stamped : ℕ → ConsentRecord → ConsentRecord
stamped at r = record r { updated_at = at }

pub record ConsentResponseInternalView : Type 0 where
  pub consent_id : String
  pub status : String
  pub consent_portal_url : Option String
  pub fields : Option (List ConsentField)

pub record ConsentResponsePortalView : Type 0 where
  pub app_id : String
  pub app_name : Option String
  pub owner_id : String
  pub owner_email : String
  pub status : String
  pub type : String
  pub created_at : ℕ
  pub updated_at : ℕ
  pub fields : List ConsentField

-- Is the status pending or approved?
abbrev pub is_active : String → Bool
is_active s = s == status_pending || s == status_approved

-- ConsentRecord.ToConsentResponseInternalView
unfoldable pub to_internal_view : ConsentRecord → ConsentResponseInternalView
to_internal_view cr = record {
  consent_id = cr.consent_id;
  status = cr.status;
  consent_portal_url =
      if cr.status == status_pending && not (cr.consent_portal_url == "")
      then some cr.consent_portal_url
      else none;
  fields = if is_active cr.status then some cr.fields else none;
}

-- ConsentRecord.ToConsentResponsePortalView
unfoldable pub to_portal_view : ConsentRecord → ConsentResponsePortalView
to_portal_view cr = record {
  app_id = cr.app_id;
  app_name = cr.app_name;
  owner_id = cr.owner_id;
  owner_email = cr.owner_email;
  status = cr.status;
  type = cr.type;
  created_at = cr.created_at;
  updated_at = cr.updated_at;
  fields = cr.fields;
}
