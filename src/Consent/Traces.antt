-- ===== src/Consent/Traces.antt =====
-- Any sequence of calls of the service, whatever the readings and whether or not they fail.
use opendif_core.Base.{List, Option, String, [], ℕ, ◌∷◌}
use opendif_core.Consent.Create.{create_consent_record}
use opendif_core.Consent.Database.{ConsentDb, IsTable}
use opendif_core.Consent.Lifecycle.{
  Changes, Changes-IsWellFormed, Changes-trans, IsWellFormedRow, here,
}
use opendif_core.Consent.Models.{ConsentPortalActionRequest, ConsentRecord, CreateConsentRequest}
use opendif_core.Consent.Preservation.{
  Evolves, get_consent_internal_view-Evolves, revoke_consent-Evolves,
  update_consent_status_by_portal_action-Evolves,
}
use opendif_core.Consent.Preservation.Creation.{create_consent_record-Evolves}
use opendif_core.Consent.Rules.{Readings}
use opendif_core.Consent.Updates.{revoke_consent, update_consent_status_by_portal_action}
use opendif_core.Consent.Views.{get_consent_internal_view}

pub data Call : Type 0 where
  create_call : Readings → CreateConsentRequest → Call
  read_call : Readings → (consent_id owner_id owner_email app_id : Option String) → Call
  decide_call : ConsentPortalActionRequest → ℕ → Call
  revoke_call : (consent_id by : String) → ℕ → Call

module _ (db : ConsentDb) (parse_uuid : String → Option String) (base_url : String) where
  -- the state after one call; its reply goes to the client
  unfoldable pub step : Call → db.State → db.State
  step (create_call rd req) s = (create_consent_record db parse_uuid base_url rd req s).1
  step (read_call rd i o e a) s = (get_consent_internal_view db parse_uuid rd i o e a s).1
  step (decide_call req now) s = (update_consent_status_by_portal_action db parse_uuid req now s).1
  step (revoke_call id by now) s = (revoke_consent db parse_uuid id by now s).1

  unfoldable pub run : List Call → db.State → db.State
  run [] s = s
  run (c ∷ cs) s = run cs (step c s)

module _ (db : ConsentDb) (parse_uuid : String → Option String) (base_url : String)
    (row : db.State → String → Option ConsentRecord) (t : IsTable db row) where
  step-Evolves :
      (c : Call) (s : db.State) → Evolves db parse_uuid row t s (step db parse_uuid base_url c s)
  unfolding step
  step-Evolves (create_call rd req) s =
      create_consent_record-Evolves db parse_uuid row t base_url rd req s
  step-Evolves (read_call rd i o e a) s =
      get_consent_internal_view-Evolves db parse_uuid row t rd i o e a s
  step-Evolves (decide_call req now) s =
      update_consent_status_by_portal_action-Evolves db parse_uuid row t req now s
  step-Evolves (revoke_call id by now) s = revoke_consent-Evolves db parse_uuid row t id by now s

  -- After any calls, each key of the table holds what it held before, changed by writes of a
  -- consent's life alone: a row appears pending with a deadline; only a pending or approved row
  -- expires or is revoked; approval and rejection may strike any row; no row disappears.
  pub run-Changes :
      (cs : List Call) (s : db.State) (id : String)
      → Changes (row s id) (row (run db parse_uuid base_url cs s) id)
  unfolding run
  run-Changes [] s id = here
  run-Changes (c ∷ cs) s id =
      Changes-trans (step-Evolves c s id) (run-Changes cs (step db parse_uuid base_url c s) id)

  -- If every row is well formed, every row is after any calls: its status is one of the five, a
  -- pending row has a deadline and no end of grant, an approved row the end of its grant and no
  -- deadline, and no row has both.
  pub run-IsWellFormed :
      (cs : List Call) (s : db.State)
      → ((id : String) → IsWellFormedRow (row s id))
      → (id : String) → IsWellFormedRow (row (run db parse_uuid base_url cs s) id)
  run-IsWellFormed cs s w id = Changes-IsWellFormed (run-Changes cs s id) (w id)
