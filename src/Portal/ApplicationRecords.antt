-- ===== src/Portal/ApplicationRecords.antt =====
-- The structs of portal-backend/v1/models that the application service reads and writes, and the
-- replies to its calls.
use opendif_core.Base.{List, Option, Result, String, ℕ}

pub record SelectedFieldRecord : Type 0 where
  pub field_name : String
  pub schema_id : String

pub record Application : Type 0 where
  pub application_id : String
  pub application_name : String
  pub application_description : Option String
  pub selected_fields : List SelectedFieldRecord
  pub member_id : String
  pub version : String
  pub idp_application_id : Option String
  pub idp_client_id : Option String
  pub created_at : ℕ
  pub updated_at : ℕ

pub record CreateApplicationRequest : Type 0 where
  pub application_name : String
  pub application_description : Option String
  pub selected_fields : List SelectedFieldRecord
  pub member_id : String

pub record UpdateApplicationRequest : Type 0 where
  pub application_name : Option String
  pub application_description : Option String
  pub version : Option String

pub record AllowListRequest : Type 0 where
  pub application_id : String
  pub records : List SelectedFieldRecord
  pub grant_duration : String

pub record ApplicationResponse : Type 0 where
  pub application_id : String
  pub application_name : String
  pub application_description : Option String
  pub selected_fields : List SelectedFieldRecord
  pub member_id : String
  pub version : String
  pub idp_application_id : Option String
  pub idp_client_id : Option String
  pub created_at : String
  pub updated_at : String

-- the tables, the ids of the applications at the identity provider, and the updates of the allow
-- lists that the policy decision point has taken
pub record AppWorld (Submission : Type 0) : Type 0 where
  pub applications : List Application
  pub submissions : List Submission
  pub idp_applications : List String
  pub allow_lists : List AllowListRequest

-- the replies to the calls of CreateApplication
pub record CreateReplies : Type 0 where
  pub idp_create : Result String String
  pub idp_oidc : Result String String
  pub db_create : Option String
  pub allow_list : Option String
  pub db_delete : Option String
  pub idp_delete : Option String

abbrev pub active_version : String
active_version = "active"

abbrev pub duration_one_month : String
duration_one_month = "30d"
