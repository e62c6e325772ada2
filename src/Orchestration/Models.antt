-- ===== src/Orchestration/Models.antt =====
-- The data of the orchestration engine: exchange/orchestration-engine/policy/dtos.go,
-- consent/dtos.go, federator/mapper.go, federator/federator.go and provider/provider.go.
-- The consent engine's types as its client declares them start with Ce here. Named string types
-- are texts, and `nil` is `none`.
use opendif_core.Base.{Bool, List, Option, String, some}

pub record RequiredField : Type 0 where
  pub field_name : String
  pub schema_id : String

pub record PdpRequest : Type 0 where
  pub app_id : String
  pub required_fields : List RequiredField

pub record ConsentRequiredField : Type 0 where
  pub field_name : String
  pub schema_id : String
  pub display_name : Option String
  pub description : Option String
  pub owner : Option String

pub record PdpResponse : Type 0 where
  pub app_authorized : Bool
  pub unauthorized_fields : List ConsentRequiredField
  pub app_access_expired : Bool
  pub expired_fields : List ConsentRequiredField
  pub app_requires_owner_consent : Bool
  pub consent_required_fields : List ConsentRequiredField

pub record CeConsentField : Type 0 where
  pub field_name : String
  pub schema_id : String
  pub display_name : Option String
  pub description : Option String
  pub owner : String

pub record CeConsentRequirement : Type 0 where
  pub owner : String
  pub owner_id : String
  pub owner_email : String
  pub fields : List CeConsentField

pub record CeCreateConsentRequest : Type 0 where
  pub app_id : String
  pub app_name : Option String
  pub consent_requirement : CeConsentRequirement
  pub grant_duration : Option String
  pub consent_type : Option String

pub record CeConsentResponse : Type 0 where
  pub consent_id : String
  pub status : String
  pub consent_portal_url : Option String

abbrev pub owner_citizen : String
owner_citizen = "citizen"

abbrev pub ce_status_approved : String
ce_status_approved = "approved"

abbrev pub ce_type_realtime : String
ce_type_realtime = "realtime"

-- a field of the query, with the provider and the schema that serve it
pub record ProviderLevelFieldRecord : Type 0 where
  pub service_key : String
  pub schema_id : String
  pub field_path : String

-- a provider's part of the query
pub record FederationServiceRequest : Type 0 where
  pub service_key : String
  pub schema_id : String
  pub graphql_request : String

pub record Provider : Type 0 where
  pub service_url : String
  pub service_key : String
  pub schema_id : String

-- the message and the code of a GraphQL error response
pub record ErrorReply : Type 0 where
  pub message : String
  pub code : Option String

abbrev pub create_error_response_with_code : String → String → ErrorReply
create_error_response_with_code message code = record { message = message; code = some code }
