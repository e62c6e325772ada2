-- ===== src/Consent/Portal.antt =====
-- UpdateConsentStatusByPortalAction: what its answer means for the table.
use opendif_core.Base.{
  Bool-cases, Option, Option-cases, String, [], arith, eq_iff, false, if◌then◌else◌, inl, inr, none,
  refl, some, ℕ, ◌+◌, ◌==◌, ◌∷◌, ◌≡◌, ◌⊎◌,
}
use opendif_core.Consent.Database.{ConsentDb, IsTable, Lookup, failed, found, missing}
use opendif_core.Consent.Models.{
  ConsentPortalActionRequest, ConsentRecord, action_approve, action_reject, cause, portal_failed,
  update_failed,
}
use opendif_core.Consent.Outcomes.{Outcome, save-Outcome}
use opendif_core.Consent.Rules.{is_valid_consent_portal_action, parse_grant_duration}
use opendif_core.Consent.Updates.{
  apply_action, update_consent_status_by_portal_action, update_found, update_selected,
}

-- what a valid action makes of a record
abbrev pub decided : ConsentPortalActionRequest → ℕ → ConsentRecord → ConsentRecord
decided req now r =
    if req.action == action_approve
    then record r {
      updated_at = now;
      updated_by = some req.updated_by;
      status = "approved";
      grant_expires_at = some (now + parse_grant_duration r.grant_duration);
      pending_expires_at = none;
    }
    else record r {
      updated_at = now;
      updated_by = some req.updated_by;
      status = "rejected";
      pending_expires_at = none;
    }

abbrev pub IsValidAction : ConsentPortalActionRequest → ConsentRecord → Type 0
IsValidAction req r = (req.action ≡ action_approve) ⊎ (req.action ≡ action_reject)

module _ (db : ConsentDb) (parse_uuid : String → Option String)
    (row : db.State → String → Option ConsentRecord) (t : IsTable db row) where
  update_found-valid :
      (req : ConsentPortalActionRequest) (now : ℕ) (s : db.State) (r : ConsentRecord)
      → IsValidAction req r
      → update_found db parse_uuid req now r s ≡ (
        if (db.save (decided req now r) s).0 then none else some (update_failed ∷ cause ∷ []),
        (db.save (decided req now r) s).1,
      )
  unfolding update_found apply_action
  update_found-valid req now s r (inl a) = rw a
  update_found-valid req now s r (inr b) = rw b

  update_found-invalid :
      (req : ConsentPortalActionRequest) (now : ℕ) (s : db.State) (r : ConsentRecord)
      → (req.action == action_approve) ≡ false
      → (req.action == action_reject) ≡ false
      → update_found db parse_uuid req now r s ≡ (some (portal_failed ∷ []), s)
  unfolding update_found apply_action
  update_found-invalid req now s r a b = rw (a, b, update_found, apply_action)

  decided-key :
      (req : ConsentPortalActionRequest) (now : ℕ) (r : ConsentRecord)
      → (decided req now r).consent_id ≡ r.consent_id
  decided-key req now r = ground arith

  update_found-Outcome :
      (req : ConsentPortalActionRequest) (u : String) (now : ℕ) (s : db.State) (r : ConsentRecord)
      → parse_uuid req.consent_id ≡ some u
      → db.first_by_id u s ≡ found r
      → Outcome db parse_uuid row
          (IsValidAction req)
          (decided req now)
          req.consent_id
          s
          (update_found db parse_uuid req now r s)
  update_found-Outcome req u now s r p q = elim (Bool-cases (req.action == action_approve)) [
    | inl a ↦ valid (inl ((eq_iff _ _).0 a))
    | inr a ↦ elim (Bool-cases (req.action == action_reject)) [
      | inl b ↦ valid (inr ((eq_iff _ _).0 b))
      | inr b ↦ rw (update_found-invalid req now s r a b) (λ id. refl)
    ]
  ]
    where
      valid :
          IsValidAction req r
          → Outcome db parse_uuid row
              (IsValidAction req)
              (decided req now)
              req.consent_id
              s
              (update_found db parse_uuid req now r s)
      valid v = rw (update_found-valid req now s r v) (
          save-Outcome db parse_uuid row t (IsValidAction req) (decided req now) req.consent_id u s
            r _ p q (decided-key req now r) v)

  update_selected-Outcome :
      (req : ConsentPortalActionRequest) (u : String) (now : ℕ) (s : db.State) (q : Lookup)
      → parse_uuid req.consent_id ≡ some u
      → db.first_by_id u s ≡ q
      → Outcome db parse_uuid row
          (IsValidAction req)
          (decided req now)
          req.consent_id
          s
          (update_selected db parse_uuid req now q s)
  unfolding update_selected
  update_selected-Outcome req u now s (found r) p q = update_found-Outcome req u now s r p q
  update_selected-Outcome req u now s missing p q = λ id. refl
  update_selected-Outcome req u now s failed p q = λ id. refl

  -- UpdateConsentStatusByPortalAction that answers nil was asked to approve or to reject, and has
  -- taken the row of the id, whatever its status was, to the same row approved, with no deadline
  -- and a grant that ends after the row's grant duration, or to the same row rejected, with no
  -- deadline, updated by the person of the request at the time of the write; no other row has
  -- changed. One that answers an error has changed no row.
  pub update_consent_status-Outcome :
      (req : ConsentPortalActionRequest) (now : ℕ) (s : db.State)
      → Outcome db parse_uuid row
          (IsValidAction req)
          (decided req now)
          req.consent_id
          s
          (update_consent_status_by_portal_action db parse_uuid req now s)
  unfolding update_consent_status_by_portal_action
  update_consent_status-Outcome req now s =
      elim (Bool-cases (is_valid_consent_portal_action req.action)) [
        | inr bad ↦ rw (bad, update_consent_status_by_portal_action) (λ id. refl)
        | inl good ↦ elim (Option-cases (parse_uuid req.consent_id)) [
          | inl no_id ↦ rw (good, no_id, update_consent_status_by_portal_action) (λ id. refl)
          | inr (u, p) ↦
              rw (good, p, update_consent_status_by_portal_action)
                (update_selected-Outcome req u now s (db.first_by_id u s) p refl)
        ]
      ]
