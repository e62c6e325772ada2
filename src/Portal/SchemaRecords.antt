-- ===== src/Portal/SchemaRecords.antt =====
-- The structs of portal-backend/v1/models that the schema service reads and writes, and the replies
-- to its calls.
use opendif_core.Base.{Bool, List, Option, String, if◌then◌else◌, none, ℕ, ◌==◌}
use opendif_core.Portal.Rows.{is_blank}

pub record SchemaRow : Type 0 where
  pub schema_id : String
  pub member_id : String
  pub schema_name : String
  pub sdl : String
  pub endpoint : String
  pub version : String
  pub schema_description : Option String
  pub created_at : ℕ
  pub updated_at : ℕ

pub record CreateSchemaRequest : Type 0 where
  pub schema_name : String
  pub schema_description : Option String
  pub sdl : String
  pub endpoint : String
  pub member_id : String

pub record UpdateSchemaRequest : Type 0 where
  pub schema_name : Option String
  pub schema_description : Option String
  pub sdl : Option String
  pub endpoint : Option String
  pub version : Option String

pub record SchemaResponse : Type 0 where
  pub schema_id : String
  pub member_id : String
  pub schema_name : String
  pub sdl : String
  pub endpoint : String
  pub version : String
  pub schema_description : Option String
  pub created_at : String
  pub updated_at : String

pub record SchemaSubmission : Type 0 where
  pub submission_id : String
  pub previous_schema_id : Option String
  pub schema_name : String
  pub schema_description : Option String
  pub sdl : String
  pub schema_endpoint : String
  pub status : String
  pub member_id : String
  pub review : Option String
  pub created_at : ℕ
  pub updated_at : ℕ

pub record CreateSchemaSubmissionRequest : Type 0 where
  pub schema_name : String
  pub schema_description : Option String
  pub sdl : String
  pub schema_endpoint : String
  pub previous_schema_id : Option String
  pub member_id : String

pub record UpdateSchemaSubmissionRequest : Type 0 where
  pub schema_name : Option String
  pub schema_description : Option String
  pub sdl : Option String
  pub schema_endpoint : Option String
  pub status : Option String
  pub previous_schema_id : Option String
  pub review : Option String

pub record SchemaSubmissionResponse : Type 0 where
  pub submission_id : String
  pub previous_schema_id : Option String
  pub schema_name : String
  pub schema_description : Option String
  pub sdl : String
  pub schema_endpoint : String
  pub status : String
  pub member_id : String
  pub created_at : String
  pub updated_at : String
  pub review : Option String

-- the tables, and the schemas whose metadata the policy decision point has taken, with their SDL
pub record SchemaWorld : Type 0 where
  pub schemas : List SchemaRow
  pub submissions : List SchemaSubmission
  pub metadata : List (String × String)

-- the replies to the calls of CreateSchema
pub record SchemaReplies : Type 0 where
  pub db_create : Option String
  pub create_metadata : Option String
  pub db_delete : Option String

-- the replies to the calls of UpdateSchemaSubmission
pub record SchemaSubmissionReplies : Type 0 where
  pub read_submission : Option String
  pub read_previous : Option String
  pub save_submission : Option String
  pub create : SchemaReplies
  pub save_pending : Option String

abbrev pub non_blank : Option String → Option String
non_blank description = if is_blank description then none else description

abbrev pub is_submission : String → SchemaSubmission → Bool
is_submission id s = s.submission_id == id
