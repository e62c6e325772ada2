-- ===== src/Consent/Preservation/Creation.antt =====
-- CreateConsentRecord and revokeAndCreateConsent take each row through changes of its life.
use opendif_core.Base.{
  Bool, Bool-cases, Option, Option-cases, Result, String, err, false, inl, inr, none, ok, refl,
  some, true, ◌≡◌,
}
use opendif_core.Consent.Create.{
  create_after_revoke, create_consent_record, create_or_reuse, create_validated, insert_consent,
  is_not_found, revoke_and_create_consent, revoke_and_create_selected, revoke_and_create_tx,
}
use opendif_core.Consent.Database.{ConsentDb, IsTable, Lookup, failed, found, missing}
use opendif_core.Consent.Lifecycle.{Changes-trans, create-Changes, here, revoke}
use opendif_core.Consent.Models.{
  ConsentRecord, ConsentResponseInternalView, CreateConsentRequest, Error, is_active,
  revoked_by_new_consent,
}
use opendif_core.Consent.Preservation.{
  Evolves, get_consent_internal_view-Evolves, save-Evolves, transaction-Evolves,
}
use opendif_core.Consent.Rules.{
  Readings, are_consent_fields_equal, build_consent_record, validate_create_consent_request,
}
use opendif_core.Consent.Updates.{revoked}

module _ (db : ConsentDb) (parse_uuid : String → Option String)
    (row : db.State → String → Option ConsentRecord) (t : IsTable db row) where
  -- the record that a request becomes can be created
  create_built-Evolves :
      (base_url : String) (rd : Readings) (req : CreateConsentRequest) (s : db.State)
      → Evolves db parse_uuid row t s (db.create (build_consent_record base_url rd req) s).1
  unfolding build_consent_record
  create_built-Evolves base_url rd req s =
      create-Changes db row t (build_consent_record base_url rd req) _ s refl refl refl

  insert_consent-Evolves :
      (base_url : String) (rd : Readings) (req : CreateConsentRequest) (s : db.State)
      → Evolves db parse_uuid row t s (insert_consent db parse_uuid base_url rd req s).1
  unfolding insert_consent
  insert_consent-Evolves base_url rd req s = create_built-Evolves base_url rd req s

  create_after_revoke-Evolves :
      (base_url : String) (rd : Readings) (req : CreateConsentRequest) (b : Bool) (s : db.State)
      → Evolves db parse_uuid row t s
          (create_after_revoke db parse_uuid (build_consent_record base_url rd req) (b, s)).1
  unfolding create_after_revoke
  create_after_revoke-Evolves base_url rd req true s id = create_built-Evolves base_url rd req s id
  create_after_revoke-Evolves base_url rd req false s id = here

  revoke_and_create_found-Evolves :
      (base_url : String) (rd : Readings) (req : CreateConsentRequest) (u : String) (s : db.State)
      (q : Lookup)
      → db.first_by_id u s ≡ q
      → Evolves db parse_uuid row t s
          (revoke_and_create_selected db parse_uuid rd (build_consent_record base_url rd req) q s).1
  unfolding revoke_and_create_selected
  revoke_and_create_found-Evolves base_url rd req u s (found r) q id =
      elim (Bool-cases (is_active r.status)) [
        | inr over ↦ rw (over, revoke_and_create_selected) here
        | inl live ↦
            let r' : ConsentRecord = revoked rd.revoke_time revoked_by_new_consent r in
            rw (live, revoke_and_create_selected)
              (Changes-trans
                (save-Evolves db parse_uuid row t u r r' s q refl
                  (revoke r rd.revoke_time revoked_by_new_consent _ live) id)
                (create_after_revoke-Evolves base_url rd req (db.save r' s).0 (db.save r' s).1 id))
      ]
  revoke_and_create_found-Evolves base_url rd req u s missing q id = here
  revoke_and_create_found-Evolves base_url rd req u s failed q id = here

  revoke_and_create_tx-Evolves :
      (base_url existing_id : String) (rd : Readings) (req : CreateConsentRequest) (s : db.State)
      → Evolves db parse_uuid row t s
          (revoke_and_create_tx db parse_uuid existing_id rd
            (build_consent_record base_url rd req)
            s).1
  unfolding revoke_and_create_tx
  revoke_and_create_tx-Evolves base_url existing_id rd req s id =
      elim (Option-cases (parse_uuid existing_id)) [
        | inl no_id ↦ rw (no_id, revoke_and_create_tx) here
        | inr (u, p) ↦
            rw (p, revoke_and_create_tx)
              (revoke_and_create_found-Evolves base_url rd req u s (db.first_by_id u s) refl id)
      ]

  revoke_and_create_consent-Evolves :
      (base_url existing_id : String) (rd : Readings) (req : CreateConsentRequest) (s : db.State)
      → Evolves db parse_uuid row t s
          (revoke_and_create_consent db parse_uuid base_url rd existing_id req s).1
  unfolding revoke_and_create_consent
  revoke_and_create_consent-Evolves base_url existing_id rd req s =
      transaction-Evolves db parse_uuid row t _ s
        (revoke_and_create_tx-Evolves base_url existing_id rd req s)

  create_or_reuse-Evolves :
      (base_url : String) (rd : Readings) (req : CreateConsentRequest)
      (q : Result Error ConsentResponseInternalView) (s : db.State)
      → Evolves db parse_uuid row t s (create_or_reuse db parse_uuid base_url rd req q s).1
  unfolding create_or_reuse
  create_or_reuse-Evolves base_url rd req (ok v) s id = elim (Bool-cases (is_active v.status)) [
    | inr over ↦ rw (over, create_or_reuse) (insert_consent-Evolves base_url rd req s id)
    | inl live ↦
        elim (Bool-cases
          (are_consent_fields_equal v.fields (some req.consent_requirement.fields))) [
            | inl same ↦ rw (live, same, create_or_reuse) here
            | inr other ↦
                rw (live, other, create_or_reuse)
                  (revoke_and_create_consent-Evolves base_url v.consent_id rd req s id)
          ]
  ]
  create_or_reuse-Evolves base_url rd req (err e) s id = elim (Bool-cases (is_not_found e)) [
    | inl lost ↦ rw (lost, create_or_reuse) (insert_consent-Evolves base_url rd req s id)
    | inr other ↦ rw (other, create_or_reuse) here
  ]

  create_validated-Evolves :
      (base_url : String) (rd : Readings) (req : CreateConsentRequest) (v : Option Error)
      (s : db.State)
      → Evolves db parse_uuid row t s (create_validated db parse_uuid base_url rd req v s).1
  unfolding create_validated
  create_validated-Evolves base_url rd req (some e) s id = here
  create_validated-Evolves base_url rd req none s id =
      Changes-trans (get_consent_internal_view-Evolves db parse_uuid row t rd none _ _ _ s id)
        (create_or_reuse-Evolves base_url rd req _ _ id)

  pub create_consent_record-Evolves :
      (base_url : String) (rd : Readings) (req : CreateConsentRequest) (s : db.State)
      → Evolves db parse_uuid row t s (create_consent_record db parse_uuid base_url rd req s).1
  unfolding create_consent_record
  create_consent_record-Evolves base_url rd req s =
      create_validated-Evolves base_url rd req (validate_create_consent_request req) s
