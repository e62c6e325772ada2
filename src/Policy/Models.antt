-- ===== src/Policy/Models.antt =====
-- The data of the policy decision point: exchange/policy-decision-point/v1/models.
-- A `uuid.UUID` is its canonical text, a `time.Time` a number of nanoseconds; `nil` is `none`.
use opendif_core.Base.{
  Bool, Dict, List, Option, String, [], insert, is_nil, join_colon, not, ℕ, ◌&&◌, ◌||◌, ◌∷◌,
}

-- GrantDurationType, AccessControlType, Source and Owner are named string types.
abbrev pub grant_duration_one_month : String
grant_duration_one_month = "30d"

abbrev pub grant_duration_one_year : String
grant_duration_one_year = "365d"

abbrev pub access_control_restricted : String
access_control_restricted = "restricted"

pub record AllowListEntry : Type 0 where
  pub expires_at : ℕ
  pub updated_at : ℕ

-- application id to entry; a nil map and an empty one read alike
abbrev pub AllowList : Type 0
AllowList = Dict AllowListEntry

pub record PolicyMetadata : Type 0 where
  pub id : String
  pub schema_id : String
  pub field_name : String
  pub display_name : Option String
  pub description : Option String
  pub source : String
  pub is_owner : Bool
  pub access_control_type : String
  pub allow_list : AllowList
  pub owner : Option String
  pub created_at : ℕ
  pub updated_at : ℕ

-- validateOwnerConstraint, which BeforeCreate and BeforeUpdate call; `false` is its error
unfoldable pub validate_owner_constraint : PolicyMetadata → Bool
validate_owner_constraint pm =
    not ((not pm.is_owner && is_nil pm.owner) || (pm.is_owner && not (is_nil pm.owner)))

pub record PolicyMetadataCreateRequestRecord : Type 0 where
  pub field_name : String
  pub display_name : Option String
  pub description : Option String
  pub source : String
  pub is_owner : Bool
  pub access_control_type : String
  pub owner : Option String

pub record PolicyMetadataCreateRequest : Type 0 where
  pub schema_id : String
  pub records : List PolicyMetadataCreateRequestRecord

-- a pair of a schema and a field, of the requests to decide and to update allow lists
pub record FieldRef : Type 0 where
  pub field_name : String
  pub schema_id : String

pub record AllowListUpdateRequest : Type 0 where
  pub application_id : String
  pub records : List FieldRef
  pub grant_duration : String

pub record AllowListUpdateResponseRecord : Type 0 where
  pub field_name : String
  pub schema_id : String
  pub expires_at : ℕ
  pub updated_at : ℕ

pub record PolicyDecisionRequest : Type 0 where
  pub application_id : String
  pub required_fields : List FieldRef

pub record PolicyDecisionResponseFieldRecord : Type 0 where
  pub field_name : String
  pub schema_id : String
  pub display_name : Option String
  pub description : Option String
  pub owner : Option String

pub record PolicyDecisionResponse : Type 0 where
  pub app_authorized : Bool
  pub unauthorized_fields : List PolicyDecisionResponseFieldRecord
  pub app_access_expired : Bool
  pub expired_fields : List PolicyDecisionResponseFieldRecord
  pub app_requires_owner_consent : Bool
  pub consent_required_fields : List PolicyDecisionResponseFieldRecord

-- record.SchemaID + ":" + record.FieldName
abbrev pub key : String → String → String
key schema_id field_name = join_colon schema_id field_name

-- the loop that fills policyMap or metadataMap; a later record replaces an earlier one
unfoldable pub index_metadata : List PolicyMetadata → Dict PolicyMetadata → Dict PolicyMetadata
index_metadata [] m = m
index_metadata (pm ∷ pms) m = index_metadata pms (insert (key pm.schema_id pm.field_name) pm m)
