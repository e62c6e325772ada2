-- ===== src/Consent/Create.antt =====
-- ConsentService: exchange/consent-engine/v1/services/consent_service.go.
-- Creating a consent, or giving back the one in force.
use opendif_core.Base.{
  Bool, Option, Result, String, [], err, false, if◌then◌else◌, none, not, ok, some, true, ◌∷◌,
}
use opendif_core.Consent.Database.{ConsentDb, Lookup, failed, found, missing}
use opendif_core.Consent.Models.{
  ConsentRecord, ConsentResponseInternalView, CreateConsentRequest, Error, cause, consent_not_found,
  create_failed, gorm_not_found, is_active, revoked_by_new_consent, to_internal_view,
}
use opendif_core.Consent.Rules.{
  Readings, are_consent_fields_equal, build_consent_record, validate_create_consent_request,
}
use opendif_core.Consent.Updates.{revoked}
use opendif_core.Consent.Views.{get_consent_internal_view}

-- the reply of revokeAndCreateConsent after its transaction
abbrev pub created_reply : ConsentRecord → Option Error → Result Error ConsentResponseInternalView
created_reply new none = ok (to_internal_view new)
created_reply new (some e) = err (create_failed ∷ e)

-- errors.Is(err, models.ErrConsentNotFound)
abbrev pub is_not_found : Error → Bool
is_not_found [] = false
is_not_found (consent_not_found ∷ e) = true
is_not_found (_ ∷ e) = is_not_found e

module _ (db : ConsentDb) (parse_uuid : String → Option String) where
  open db use {State, create, save, first_by_id, transaction}

  -- Step 2 in the transaction of revokeAndCreateConsent
  unfoldable pub create_after_revoke : ConsentRecord → Bool × State → Option Error × State
  create_after_revoke new (true, s) =
      let (written, s') = create new s in (if written then none else some (cause ∷ []), s')
  create_after_revoke new (false, s) = (some (cause ∷ []), s)

  -- the transaction of revokeAndCreateConsent, after its query
  unfoldable pub revoke_and_create_selected :
      Readings → ConsentRecord → Lookup → State → Option Error × State
  revoke_and_create_selected rd new missing s = (some (consent_not_found ∷ gorm_not_found ∷ []), s)
  revoke_and_create_selected rd new failed s = (some (cause ∷ []), s)
  revoke_and_create_selected rd new (found r) s =
      if not (is_active r.status)
      then (some (cause ∷ []), s)
      else create_after_revoke new (save (revoked rd.revoke_time revoked_by_new_consent r) s)

  -- the function that revokeAndCreateConsent runs in a transaction
  unfoldable pub revoke_and_create_tx :
      String → Readings → ConsentRecord → State → Option Error × State
  revoke_and_create_tx existing_id rd new s = elim (parse_uuid existing_id) [
    | none ↦ (some (cause ∷ []), s)
    | some u ↦ revoke_and_create_selected rd new (first_by_id u s) s
  ]

  -- revokeAndCreateConsent; the record to create depends on the request and the readings alone
  unfoldable pub revoke_and_create_consent :
      String
      → Readings
      → String
      → CreateConsentRequest
      → State
      → Result Error ConsentResponseInternalView × State
  revoke_and_create_consent base_url rd existing_id req s =
      let new = build_consent_record base_url rd req in
      let (e, s') = transaction (revoke_and_create_tx existing_id rd new) s in
      (created_reply new e, s')

  -- the last part of CreateConsentRecord: build, insert, view
  unfoldable pub insert_consent :
      String
      → Readings
      → CreateConsentRequest
      → State
      → Result Error ConsentResponseInternalView × State
  insert_consent base_url rd req s =
      let new = build_consent_record base_url rd req in
      let (written, s') = create new s in
      (if written then ok (to_internal_view new) else err (create_failed ∷ cause ∷ []), s')

  -- CreateConsentRecord, after it looked for an existing consent
  unfoldable pub create_or_reuse :
      String
      → Readings
      → CreateConsentRequest
      → Result Error ConsentResponseInternalView
      → State
      → Result Error ConsentResponseInternalView × State
  create_or_reuse base_url rd req (ok existing) s =
      if is_active existing.status
      then if are_consent_fields_equal existing.fields (some req.consent_requirement.fields)
        then (ok existing, s)
        else revoke_and_create_consent base_url rd existing.consent_id req s
      else insert_consent base_url rd req s
  create_or_reuse base_url rd req (err e) s =
      if not (is_not_found e)
      then (err (create_failed ∷ e), s)
      else insert_consent base_url rd req s

  -- CreateConsentRecord, after validation
  unfoldable pub create_validated :
      String
      → Readings
      → CreateConsentRequest
      → Option Error
      → State
      → Result Error ConsentResponseInternalView × State
  create_validated base_url rd req (some e) s = (err (create_failed ∷ e), s)
  create_validated base_url rd req none s =
      let need = req.consent_requirement in
      let (existing, s') =
        get_consent_internal_view db parse_uuid rd none (some need.owner_id) (some need.owner_email)
          (some req.app_id) s in
      create_or_reuse base_url rd req existing s'

  -- CreateConsentRecord
  unfoldable pub create_consent_record :
      String
      → Readings
      → CreateConsentRequest
      → State
      → Result Error ConsentResponseInternalView × State
  create_consent_record base_url rd req s =
      create_validated base_url rd req (validate_create_consent_request req) s
