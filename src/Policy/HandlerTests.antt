-- ===== src/Policy/HandlerTests.antt =====
-- Runs of the handler of the policy decision point over a table that any query reads whole, and
-- an instance of the theorem about its decisions.
use opendif_core.Base.{
  HasNoColon, List, Option, String, [], err, if◌then◌else◌, insert, is_not_colon, join_colon,
  lookup, none, ok, refl, some, subst, true, ℕ, ◌==◌, ◌∷◌, ◌≡◌,
}
use opendif_core.Policy.AllowLists.{update_allow_lists}
use opendif_core.Policy.Database.{PolicyDb}
use opendif_core.Policy.Decision.{
  decide, get_policy_decision, judge, judge_fields, no_findings, schema_ids, to_response,
}
use opendif_core.Policy.Handled.{HasClearIds, IsReadable, handle_policy_service-IsReadable}
use opendif_core.Policy.Handler.{
  PolicyReadings, PolicyReply, PolicyRequest, decide_checked, decision, handle_create,
  handle_decide, handle_policy_service, handle_update, route,
}
use opendif_core.Policy.Index.{AreClear}
use opendif_core.Policy.Models.{FieldRef, PolicyDecisionRequest, PolicyMetadata, index_metadata}
use opendif_core.Policy.Sync.{create_policy_metadata, create_tx}

-- every function that a run of the handler computes with
service : Unit {0}
unfolding handle_policy_service route handle_create handle_update handle_decide decide_checked
    get_policy_decision create_policy_metadata create_tx update_allow_lists decide judge
    judge_fields index_metadata join_colon lookup insert schema_ids
service = tt

abbrev table : PolicyDb
table = record {
  State = List PolicyMetadata;
  rows_of_schema = λ id s. none;
  rows_of_schemas = λ ks s. some s;
  rows_of_pairs = λ fs s. none;
  begin = λ s. some s;
  delete_ids = λ ks s. none;
  create_all = λ rs s. none;
  save_all = λ rs s. none;
  update_allow_list = λ r s. none;
  commit = λ s. none;
}

abbrev stored : List PolicyMetadata
stored =
    record {
      id = "m1";
      schema_id = "s1";
      field_name = "nic";
      display_name = none;
      description = none;
      source = "primary";
      is_owner = true;
      access_control_type = "public";
      allow_list = ("app1", record { expires_at = 50; updated_at = 3 }) ∷ [];
      owner = none;
      created_at = 1;
      updated_at = 1;
    }
    ∷ []

abbrev ask_for : String → List FieldRef → PolicyDecisionRequest
ask_for app fields = record { application_id = app; required_fields = fields }

abbrev nic_ref : List FieldRef
nic_ref = record { field_name = "nic"; schema_id = "s1" } ∷ []

abbrev post : List String → Option PolicyDecisionRequest → PolicyRequest
post parts body = record {
  parts = parts;
  method = "POST";
  metadata_body = some (record { schema_id = " "; records = [] });
  allow_list_body = none;
  decide_body = body;
}

abbrev times : PolicyReadings
times = record { ids = λ i. "m2"; write_time = 40; field_times = λ i. 40 }

abbrev add_nothing : ℕ → (years months : ℕ) → ℕ
add_nothing t years months = t

abbrev trim : String → String
trim t = if t == " " then "" else t

abbrev reply_to : PolicyRequest → PolicyReply
reply_to rq = (handle_policy_service table add_nothing trim times rq stored).0

-- An application on the list may read; one that names no field, or no application, is refused,
-- and so are a schema id of spaces, a body that is not decoded and other paths and methods.
handler_tests :
    (reply_to (post ("decide" ∷ []) (some (ask_for "app1" nic_ref)))
      ≡ ok (200, decision (to_response no_findings)))
    × (reply_to (post ("decide" ∷ []) (some (ask_for "app1" []))) ≡ err 400)
    × (reply_to (post ("decide" ∷ []) (some (ask_for "" nic_ref))) ≡ err 400)
    × (reply_to (post ("decide" ∷ []) none) ≡ err 400)
    × (reply_to (post ("metadata" ∷ []) none) ≡ err 400)
    × (reply_to (post ("update-allowlist" ∷ []) none) ≡ err 400)
    × (reply_to (post ("decisions" ∷ []) none) ≡ err 404)
    × (reply_to (post ("decide" ∷ "now" ∷ []) none) ≡ err 404)
    × (reply_to (record (post ("decide" ∷ []) none) { method = "GET" }) ≡ err 405)
unfolding service
handler_tests = (refl, refl, refl, refl, refl, refl, refl, refl, refl)

s1_no_colon : HasNoColon "s1"
s1_no_colon = (is_not_colon "s" refl, (is_not_colon "1" refl, tt))

abbrev may_read : PolicyRequest
may_read = post ("decide" ∷ []) (some (ask_for "app1" nic_ref))

stored-HasClearIds : HasClearIds table add_nothing trim may_read stored
stored-HasClearIds req rows b q =
    let asked : ask_for "app1" nic_ref ≡ req = cc b in
    let read : stored ≡ rows = cc q in
    subst (λ x. AreClear rows x.required_fields) asked
      (subst (λ x. AreClear x nic_ref) read ((s1_no_colon, tt), (s1_no_colon, tt)))

handle_policy_service-IsReadable_example : IsReadable table add_nothing trim times may_read stored
unfolding service
handle_policy_service-IsReadable_example =
    handle_policy_service-IsReadable table add_nothing trim times may_read stored stored-HasClearIds
      refl (refl, refl, refl)
