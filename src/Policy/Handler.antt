-- ===== src/Policy/Handler.antt =====
-- The HTTP handler of the policy decision point: exchange/policy-decision-point/v1/handler.go.
-- A request is what the handler reads of it: `path` is its path with the parts between slashes
-- after the prefix, as `strings` splits it, and each body what `encoding/json` decodes for the
-- type, `none` where that fails. `trim_space` is `strings.TrimSpace`. Error texts are left out.
use opendif_core.Base.{
  List, Option, Result, String, [], err, if◌then◌else◌, is_empty, none, ok, some, ℕ, ◌==◌, ◌∷◌,
}
use opendif_core.Policy.AllowLists.{AllowListError, update_allow_lists}
use opendif_core.Policy.Database.{PolicyDb}
use opendif_core.Policy.Decision.{DecisionError, get_policy_decision}
use opendif_core.Policy.Models.{
  AllowListUpdateRequest, AllowListUpdateResponseRecord, PolicyDecisionRequest,
  PolicyDecisionResponse, PolicyMetadata, PolicyMetadataCreateRequest,
}
use opendif_core.Policy.Sync.{create_policy_metadata}

-- http.StatusCreated and the others are their numbers
pub data Payload : Type 0 where
  created_records : List PolicyMetadata → Payload
  allowed_records : List AllowListUpdateResponseRecord → Payload
  decision : PolicyDecisionResponse → Payload

pub record PolicyRequest : Type 0 where
  pub parts : List String
  pub method : String
  pub metadata_body : Option PolicyMetadataCreateRequest
  pub allow_list_body : Option AllowListUpdateRequest
  pub decide_body : Option PolicyDecisionRequest

-- the new ids of the records to create, and the readings of the clock
pub record PolicyReadings : Type 0 where
  pub ids : ℕ → String
  pub write_time : ℕ
  pub field_times : ℕ → ℕ

-- an error with its status, or a payload with one
abbrev pub PolicyReply : Type 0
PolicyReply = Result ℕ (ℕ × Payload)

-- the end of each handler, after its call of the service
abbrev pub answer_created : {S : Type 0} → Option (List PolicyMetadata) × S → PolicyReply × S
answer_created (none, s) = (err 500, s)
answer_created (some records, s) = (ok (201, created_records records), s)

abbrev pub answer_allowed :
    {S : Type 0} → Result AllowListError (List AllowListUpdateResponseRecord) × S → PolicyReply × S
answer_allowed (err e, s) = (err 500, s)
answer_allowed (ok records, s) = (ok (200, allowed_records records), s)

abbrev pub answer_decision : Result DecisionError PolicyDecisionResponse → PolicyReply
answer_decision (err e) = err 500
answer_decision (ok resp) = ok (200, decision resp)

module _ (db : PolicyDb) (add_date : ℕ → (years months : ℕ) → ℕ)
    (trim_space : String → String) where
  open db use {State}

  -- Handler.CreatePolicyMetadata
  unfoldable pub handle_create : PolicyReadings → PolicyRequest → State → PolicyReply × State
  handle_create rd rq s = elim rq.metadata_body [
    | none ↦ (err 400, s)
    | some req ↦
        if trim_space req.schema_id == ""
        then (err 400, s)
        else answer_created (create_policy_metadata db rd.ids rd.write_time req s)
  ]

  -- Handler.UpdateAllowList
  unfoldable pub handle_update : PolicyReadings → PolicyRequest → State → PolicyReply × State
  handle_update rd rq s = elim rq.allow_list_body [
    | none ↦ (err 400, s)
    | some req ↦ answer_allowed (update_allow_lists db add_date req rd.write_time s)
  ]

  -- Handler.GetPolicyDecision, after it decoded the body
  unfoldable pub decide_checked : PolicyReadings → PolicyDecisionRequest → State → PolicyReply
  decide_checked rd req s =
      if req.application_id == ""
      then err 400
      else if is_empty req.required_fields
      then err 400
      else answer_decision (get_policy_decision db rd.field_times req s)

  -- Handler.GetPolicyDecision
  unfoldable pub handle_decide : PolicyReadings → PolicyRequest → State → PolicyReply
  handle_decide rd rq s = elim rq.decide_body [
    | none ↦ err 400
    | some req ↦ decide_checked rd req s
  ]

  -- the switch of handlePolicyService
  unfoldable pub route : PolicyReadings → PolicyRequest → String → State → PolicyReply × State
  route rd rq part s =
      if part == "metadata"
      then if rq.method == "POST" then handle_create rd rq s else (err 405, s)
      else if part == "update-allowlist"
      then if rq.method == "POST" then handle_update rd rq s else (err 405, s)
      else if part == "decide"
      then if rq.method == "POST" then (handle_decide rd rq s, s) else (err 405, s)
      else (err 404, s)

  -- Handler.handlePolicyService
  unfoldable pub handle_policy_service :
      PolicyReadings → PolicyRequest → State → PolicyReply × State
  handle_policy_service rd rq s = elim rq.parts [
    | [] ↦ (err 404, s)
    | part ∷ rest ↦ if is_empty rest then route rd rq part s else (err 404, s)
  ]
