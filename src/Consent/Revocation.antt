-- ===== src/Consent/Revocation.antt =====
-- RevokeConsent: what its answer means for the table.
use opendif_core.Base.{Bool-cases, Option, Option-cases, String, inl, inr, refl, some, true, ℕ, ◌≡◌}
use opendif_core.Consent.Database.{ConsentDb, IsTable, Lookup, failed, found, missing}
use opendif_core.Consent.Models.{ConsentRecord, is_active}
use opendif_core.Consent.Outcomes.{Outcome, save-Outcome, transaction-Outcome}
use opendif_core.Consent.Updates.{revoke_consent, revoke_found, revoke_selected, revoke_tx}

abbrev pub IsActive : ConsentRecord → Type 0
IsActive r = is_active r.status ≡ true

-- what a revocation makes of a record
abbrev pub withdrawn : ℕ → String → ConsentRecord → ConsentRecord
withdrawn now by r = record r { status = "revoked"; updated_at = now; updated_by = some by }

module _ (db : ConsentDb) (parse_uuid : String → Option String)
    (row : db.State → String → Option ConsentRecord) (t : IsTable db row) where
  revoke_found-Outcome :
      (text u by : String) (now : ℕ) (s : db.State) (r : ConsentRecord)
      → parse_uuid text ≡ some u
      → db.first_by_id u s ≡ found r
      → Outcome db parse_uuid row IsActive
          (withdrawn now by)
          text
          s
          (revoke_found db parse_uuid by now r s)
  unfolding revoke_found
  revoke_found-Outcome text u by now s r p q = elim (Bool-cases (is_active r.status)) [
    | inl live ↦
        rw (live, revoke_found)
          (save-Outcome db parse_uuid row t IsActive (withdrawn now by) text u s r _ p q refl live)
    | inr over ↦ rw (over, revoke_found) (λ id. refl)
  ]

  revoke_selected-Outcome :
      (text u by : String) (now : ℕ) (s : db.State) (q : Lookup)
      → parse_uuid text ≡ some u
      → db.first_by_id u s ≡ q
      → Outcome db parse_uuid row IsActive
          (withdrawn now by)
          text
          s
          (revoke_selected db parse_uuid by now q s)
  unfolding revoke_selected
  revoke_selected-Outcome text u by now s (found r) p q = revoke_found-Outcome text u by now s r p q
  revoke_selected-Outcome text u by now s missing p q = λ id. refl
  revoke_selected-Outcome text u by now s failed p q = λ id. refl

  revoke_tx-Outcome :
      (text by : String) (now : ℕ) (s : db.State)
      → Outcome db parse_uuid row IsActive
          (withdrawn now by)
          text
          s
          (revoke_tx db parse_uuid text by now s)
  unfolding revoke_tx
  revoke_tx-Outcome text by now s = elim (Option-cases (parse_uuid text)) [
    | inl no_id ↦ rw (no_id, revoke_tx) (λ id. refl)
    | inr (u, p) ↦
        rw (p, revoke_tx) (revoke_selected-Outcome text u by now s (db.first_by_id u s) p refl)
  ]

  -- RevokeConsent that answers nil has taken the row of the id, pending or approved before, to the
  -- same row revoked, with the person and the time of the write, and no other row has changed. One that answers
  -- an error has changed no row.
  pub revoke_consent-Outcome :
      (text by : String) (now : ℕ) (s : db.State)
      → Outcome db parse_uuid row IsActive
          (withdrawn now by)
          text
          s
          (revoke_consent db parse_uuid text by now s)
  unfolding revoke_consent
  revoke_consent-Outcome text by now s =
      transaction-Outcome db parse_uuid row t IsActive (withdrawn now by) text _ s
        (revoke_tx-Outcome text by now s) _ refl
