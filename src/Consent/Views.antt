-- ===== src/Consent/Views.antt =====
-- ConsentService: exchange/consent-engine/v1/services/consent_service.go.
-- Reading a consent, which expires it when it is overdue.
-- The database is the interface of Consent/Database.antt, `parse_uuid` is `uuid.Parse`, and each
-- reading of `time.Now` and of `uuid.New` is a field of `Readings`. The request's context enters
-- the database's state. An operation returns its result and the new state.
use opendif_core.Base.{
  Bool, Option, Result, String, [], err, false, if◌then◌else◌, ltb, none, ok, some, ℕ, ◌&&◌, ◌==◌,
  ◌∷◌,
}
use opendif_core.Consent.Database.{ConsentDb, Lookup, failed, found, missing}
use opendif_core.Consent.Models.{
  ConsentRecord, ConsentResponseInternalView, ConsentResponsePortalView, Error, cause,
  consent_not_found, get_failed, gorm_not_found, status_approved, status_expired, status_pending,
  to_internal_view, to_portal_view,
}
use opendif_core.Consent.Rules.{Readings}

-- `t != nil && now.After(*t)`
abbrev pub is_after : Option ℕ → ℕ → Bool
is_after none now = false
is_after (some t) now = ltb t now

abbrev pub pending_overdue : ConsentRecord → ℕ → Bool
pending_overdue r now = is_after r.pending_expires_at now && r.status == status_pending

abbrev pub grant_overdue : ConsentRecord → ℕ → Bool
grant_overdue r now = is_after r.grant_expires_at now && r.status == status_approved

module _ (db : ConsentDb) (parse_uuid : String → Option String) where
  open db use {State, save, first_by_id, latest_by_owner_id, latest_by_owner_email}

  -- the selection of GetConsentInternalView; an id that does not parse, or too few arguments, is
  -- an error before any query
  unfoldable pub select_consent :
      (consent_id owner_id owner_email app_id : Option String) → State → Result Error Lookup
  select_consent (some id) owner_id owner_email app_id s = elim (parse_uuid id) [
    | none ↦ err (get_failed ∷ [])
    | some u ↦ ok (first_by_id u s)
  ]
  select_consent none (some owner_id) owner_email (some app_id) s =
      ok (latest_by_owner_id owner_id app_id s)
  select_consent none none (some owner_email) (some app_id) s =
      ok (latest_by_owner_email owner_email app_id s)
  select_consent none _ _ _ s = err (get_failed ∷ [])

  -- the write of either branch of GetConsentInternalView that expires the record
  unfoldable pub save_expired :
      ConsentRecord → State → Result Error ConsentResponseInternalView × State
  save_expired r s =
      let r' = record r { status = status_expired } in
      let (written, s') = save r' s in
      (if written then ok (to_internal_view r') else err (get_failed ∷ cause ∷ []), s')

  -- GetConsentInternalView, after the row is found
  unfoldable pub refresh_consent :
      Readings → ConsentRecord → State → Result Error ConsentResponseInternalView × State
  refresh_consent rd r s =
      if pending_overdue r rd.pending_check
      then save_expired r s
      else if grant_overdue r rd.grant_check
      then save_expired r s
      else (ok (to_internal_view r), s)

  -- GetConsentInternalView, after the query
  unfoldable pub answer_selection :
      Readings → Result Error Lookup → State → Result Error ConsentResponseInternalView × State
  answer_selection rd (err e) s = (err e, s)
  answer_selection rd (ok missing) s = (err (consent_not_found ∷ gorm_not_found ∷ []), s)
  answer_selection rd (ok failed) s = (err (get_failed ∷ cause ∷ []), s)
  answer_selection rd (ok (found r)) s = refresh_consent rd r s

  -- GetConsentInternalView
  unfoldable pub get_consent_internal_view :
      Readings
      → (consent_id owner_id owner_email app_id : Option String) → State
      → Result Error ConsentResponseInternalView × State
  get_consent_internal_view rd consent_id owner_id owner_email app_id s =
      answer_selection rd (select_consent consent_id owner_id owner_email app_id s) s

  -- GetConsentPortalView
  unfoldable pub get_consent_portal_view : String → State → Result Error ConsentResponsePortalView
  get_consent_portal_view consent_id s = elim (parse_uuid consent_id) [
    | none ↦ err (get_failed ∷ [])
    | some u ↦ elim (first_by_id u s) [
      | found r ↦ ok (to_portal_view r)
      | missing ↦ err (consent_not_found ∷ gorm_not_found ∷ [])
      | failed ↦ err (get_failed ∷ cause ∷ [])
    ]
  ]
