-- ===== src/Portal/SubmissionRecords.antt =====
-- The structs of portal-backend/v1/models that stand for submissions of applications, and the replies
-- to the calls of UpdateApplicationSubmission.
use opendif_core.Base.{List, Option, String, ℕ}
use opendif_core.Portal.ApplicationRecords.{CreateReplies, SelectedFieldRecord}

abbrev pub submission_pending : String
submission_pending = "pending"

abbrev pub submission_approved : String
submission_approved = "approved"

pub record ApplicationSubmission : Type 0 where
  pub submission_id : String
  pub previous_application_id : Option String
  pub application_name : String
  pub application_description : Option String
  pub selected_fields : List SelectedFieldRecord
  pub member_id : String
  pub status : String
  pub review : Option String
  pub created_at : ℕ
  pub updated_at : ℕ

pub record CreateApplicationSubmissionRequest : Type 0 where
  pub application_name : String
  pub application_description : Option String
  pub selected_fields : List SelectedFieldRecord
  pub previous_application_id : Option String
  pub member_id : String

pub record UpdateApplicationSubmissionRequest : Type 0 where
  pub application_name : Option String
  pub application_description : Option String
  pub selected_fields : Option (List SelectedFieldRecord)
  pub status : Option String
  pub previous_application_id : Option String
  pub review : Option String

pub record ApplicationSubmissionResponse : Type 0 where
  pub submission_id : String
  pub previous_application_id : Option String
  pub application_name : String
  pub application_description : Option String
  pub selected_fields : List SelectedFieldRecord
  pub member_id : String
  pub status : String
  pub created_at : String
  pub updated_at : String
  pub review : Option String

-- the replies to the calls of UpdateApplicationSubmission
pub record SubmissionReplies : Type 0 where
  pub read_submission : Option String
  pub read_previous : Option String
  pub save_submission : Option String
  pub create : CreateReplies
  pub save_pending : Option String
