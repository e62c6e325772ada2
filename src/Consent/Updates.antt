-- ===== src/Consent/Updates.antt =====
-- ConsentService: exchange/consent-engine/v1/services/consent_service.go.
-- The portal's action, and revocation.
use opendif_core.Base.{Option, String, [], if◌then◌else◌, none, not, some, ℕ, ◌+◌, ◌==◌, ◌∷◌}
use opendif_core.Consent.Database.{ConsentDb, Lookup, failed, found, missing}
use opendif_core.Consent.Models.{
  ConsentPortalActionRequest, ConsentRecord, Error, action_approve, action_reject, cause,
  consent_not_found, gorm_not_found, is_active, portal_failed, revoke_failed, status_approved,
  status_rejected, status_revoked, update_failed,
}
use opendif_core.Consent.Rules.{is_valid_consent_portal_action, parse_grant_duration}

-- the writes of the branch that approves
abbrev pub approved : ℕ → String → ConsentRecord → ConsentRecord
approved now by r = record r {
  updated_at = now;
  updated_by = some by;
  status = status_approved;
  grant_expires_at = some (now + parse_grant_duration r.grant_duration);
  pending_expires_at = none;
}

-- the writes of the branch that rejects
abbrev pub rejected : ℕ → String → ConsentRecord → ConsentRecord
rejected now by r = record r {
  updated_at = now;
  updated_by = some by;
  status = status_rejected;
  pending_expires_at = none;
}

-- the switch on the action of UpdateConsentStatusByPortalAction; `none` is its default
unfoldable pub apply_action : String → ℕ → String → ConsentRecord → Option ConsentRecord
apply_action action now updated_by r =
    if action == action_approve
    then some (approved now updated_by r)
    else if action == action_reject
    then some (rejected now updated_by r)
    else none

-- what both revocations write
abbrev pub revoked : ℕ → String → ConsentRecord → ConsentRecord
revoked now by r = record r { status = status_revoked; updated_at = now; updated_by = some by }

module _ (db : ConsentDb) (parse_uuid : String → Option String) where
  open db use {State, save, first_by_id, transaction}

  -- UpdateConsentStatusByPortalAction, after the row is found
  unfoldable pub update_found :
      ConsentPortalActionRequest → ℕ → ConsentRecord → State → Option Error × State
  update_found req now r s = elim (apply_action req.action now req.updated_by r) [
    | none ↦ (some (portal_failed ∷ []), s)
    | some r' ↦
        let (written, s') = save r' s in
        (if written then none else some (update_failed ∷ cause ∷ []), s')
  ]

  -- UpdateConsentStatusByPortalAction, after the query
  unfoldable pub update_selected :
      ConsentPortalActionRequest → ℕ → Lookup → State → Option Error × State
  update_selected req now missing s = (some (consent_not_found ∷ gorm_not_found ∷ []), s)
  update_selected req now failed s = (some (update_failed ∷ cause ∷ []), s)
  update_selected req now (found r) s = update_found req now r s

  -- UpdateConsentStatusByPortalAction; `now` is its reading of the clock
  unfoldable pub update_consent_status_by_portal_action :
      ConsentPortalActionRequest → ℕ → State → Option Error × State
  update_consent_status_by_portal_action req now s =
      if not (is_valid_consent_portal_action req.action)
      then (some (portal_failed ∷ []), s)
      else elim (parse_uuid req.consent_id) [
        | none ↦ (some (portal_failed ∷ []), s)
        | some u ↦ update_selected req now (first_by_id u s) s
      ]

  -- the write of RevokeConsent
  unfoldable pub revoke_found : String → ℕ → ConsentRecord → State → Option Error × State
  revoke_found revoked_by now r s =
      if not (is_active r.status)
      then (some (revoke_failed ∷ []), s)
      else let (written, s') = save (revoked now revoked_by r) s in
        (if written then none else some (revoke_failed ∷ cause ∷ []), s')

  -- RevokeConsent, after its query
  unfoldable pub revoke_selected : String → ℕ → Lookup → State → Option Error × State
  revoke_selected revoked_by now missing s = (some (consent_not_found ∷ gorm_not_found ∷ []), s)
  revoke_selected revoked_by now failed s = (some (revoke_failed ∷ cause ∷ []), s)
  revoke_selected revoked_by now (found r) s = revoke_found revoked_by now r s

  -- the function that RevokeConsent runs in a transaction
  unfoldable pub revoke_tx : String → String → ℕ → State → Option Error × State
  revoke_tx consent_id revoked_by now s = elim (parse_uuid consent_id) [
    | none ↦ (some (revoke_failed ∷ []), s)
    | some u ↦ revoke_selected revoked_by now (first_by_id u s) s
  ]

  -- RevokeConsent
  unfoldable pub revoke_consent : String → String → ℕ → State → Option Error × State
  revoke_consent consent_id revoked_by now = transaction (revoke_tx consent_id revoked_by now)
