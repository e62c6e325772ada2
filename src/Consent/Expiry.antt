-- ===== src/Consent/Expiry.antt =====
-- GetConsentInternalView: what it shows is stored, is what was asked for, and is not overdue.
use opendif_core.Base.{
  Bool-cases, Option, Option-cases, Result, String, arith, err, false, inl, inr, none, ok, refl,
  some, ◌≡◌, ◌⊎◌,
}
use opendif_core.Consent.Database.{ConsentDb, IsTable, Lookup, failed, found, missing, saved}
use opendif_core.Consent.Models.{
  ConsentRecord, ConsentResponseInternalView, Error, status_expired, to_internal_view,
}
use opendif_core.Consent.Rules.{Readings}
use opendif_core.Consent.Views.{
  answer_selection, get_consent_internal_view, grant_overdue, pending_overdue, refresh_consent,
  save_expired, select_consent,
}
use opendif_core.Consent.Writes.{save-IsWritten}

module _ (db : ConsentDb) (parse_uuid : String → Option String)
    (row : db.State → String → Option ConsentRecord) where
  -- what the arguments ask for: a key, else owner and application, else email and application
  abbrev pub Selects :
      (consent_id owner_id owner_email app_id : Option String) → ConsentRecord → Type 0
  Selects (some id) owner_id owner_email app_id r = parse_uuid id ≡ some r.consent_id
  Selects none (some o) owner_email (some a) r = (r.owner_id ≡ o) × (r.app_id ≡ a)
  Selects none none (some e) (some a) r = (r.owner_email ≡ e) × (r.app_id ≡ a)
  Selects none _ _ _ r = ⊥

  -- The view `v` shows the record `shown` of the table, which no clock reading makes overdue;
  -- it is the record that was asked for, or that record expired, as a save in `s` stores it.
  pub record IsCurrent (rd : Readings) (asked : ConsentRecord) (s s' : db.State)
      (v : ConsentResponseInternalView) : Type 0 where
    pub shown : ConsentRecord
    pub kept : (shown ≡ asked) ⊎ (shown ≡ saved db s (record asked { status = status_expired }))
    pub stored : row s' shown.consent_id ≡ some shown
    pub view : v ≡ to_internal_view shown
    pub no_pending_overdue : pending_overdue shown rd.pending_check ≡ false
    pub no_grant_overdue : grant_overdue shown rd.grant_check ≡ false

  -- The answer to a read: a record that was asked for, as the table now holds it.
  pub record IsAnswer (consent_id owner_id owner_email app_id : Option String) (rd : Readings)
      (s s' : db.State) (v : ConsentResponseInternalView) : Type 0 where
    pub asked : ConsentRecord
    pub stored_before : row s asked.consent_id ≡ some asked
    pub selected : Selects consent_id owner_id owner_email app_id asked
    pub same_key : v.consent_id ≡ asked.consent_id
    pub current : IsCurrent rd asked s s' v

  -- a row that a selection finds is in the table under its key, and is one that is asked for
  abbrev pub IsSelected :
      (consent_id owner_id owner_email app_id : Option String) → db.State → ConsentRecord → Type 0
  IsSelected consent_id owner_id owner_email app_id s r =
      (row s r.consent_id ≡ some r) × Selects consent_id owner_id owner_email app_id r

module _ (db : ConsentDb) (parse_uuid : String → Option String)
    (row : db.State → String → Option ConsentRecord) (t : IsTable db row) where
  save_expired-IsCurrent :
      (rd : Readings) (r : ConsentRecord) (s : db.State) {v : ConsentResponseInternalView}
      → (save_expired db parse_uuid r s).0 ≡ ok v
      → IsCurrent db parse_uuid row rd r s (save_expired db parse_uuid r s).1 v
  unfolding save_expired to_internal_view
  save_expired-IsCurrent rd r s {v} h =
      let r' : ConsentRecord = record r { status = status_expired } in
      let saved_view : v ≡ to_internal_view r' = ground arith in
      record {
        shown = saved db s r';
        kept = inr refl;
        stored = (save-IsWritten db row t r' s (ground arith)).at_key;
        view = saved_view;
        no_pending_overdue = ground arith;
        no_grant_overdue = ground arith;
      }

  refresh_consent-IsCurrent :
      (rd : Readings) (r : ConsentRecord) (s : db.State) {v : ConsentResponseInternalView}
      → row s r.consent_id ≡ some r
      → (refresh_consent db parse_uuid rd r s).0 ≡ ok v
      → IsCurrent db parse_uuid row rd r s (refresh_consent db parse_uuid rd r s).1 v
  unfolding refresh_consent
  refresh_consent-IsCurrent rd r s {v} there h =
      elim (Bool-cases (pending_overdue r rd.pending_check)) [
        | inl late ↦
            rw (late, refresh_consent)
              (save_expired-IsCurrent rd r s (rw (late, refresh_consent) at h))
        | inr pending ↦ elim (Bool-cases (grant_overdue r rd.grant_check)) [
          | inl late ↦
              rw (pending, late, refresh_consent)
                (save_expired-IsCurrent rd r s (rw (pending, late, refresh_consent) at h))
          | inr grant ↦
              rw (pending, grant, refresh_consent)
                (record {
                  shown = r;
                  kept = inl refl;
                  stored = there;
                  view = ground arith;
                  no_pending_overdue = pending;
                  no_grant_overdue = grant;
                })
        ]
      ]

  refresh_consent-key :
      (rd : Readings) (r : ConsentRecord) (s : db.State) {v : ConsentResponseInternalView}
      → (refresh_consent db parse_uuid rd r s).0 ≡ ok v
      → v.consent_id ≡ r.consent_id
  unfolding refresh_consent save_expired to_internal_view
  refresh_consent-key rd r s {v} h = ground arith

  by_id-IsSelected :
      (id u : String) (o e a : Option String) (s : db.State) (r : ConsentRecord)
      → parse_uuid id ≡ some u
      → db.first_by_id u s ≡ found r
      → IsSelected db parse_uuid row (some id) o e a s r
  by_id-IsSelected id u o e a s r p f =
      let there = t.first_row u s r f in
      let key = t.row_key u s r there in (simp key there, simp key p)

  pub select_consent-IsSelected :
      (consent_id owner_id owner_email app_id : Option String) (s : db.State) (r : ConsentRecord)
      → select_consent db parse_uuid consent_id owner_id owner_email app_id s ≡ ok (found r)
      → IsSelected db parse_uuid row consent_id owner_id owner_email app_id s r
  unfolding select_consent
  select_consent-IsSelected (some id) o e a s r h = elim (Option-cases (parse_uuid id)) [
    | inl no_id ↦ absurd (ground arith)
    | inr (u, p) ↦ by_id-IsSelected id u o e a s r p (ground arith)
  ]
  select_consent-IsSelected none (some o) e (some a) s r h =
      let q = t.owner_id_row o a s r (ground arith) in (q.0, (q.1, q.2))
  select_consent-IsSelected none none (some e) (some a) s r h =
      let q = t.owner_email_row e a s r (ground arith) in (q.0, (q.1, q.2))
  select_consent-IsSelected none _ _ _ s r h = absurd (ground arith)

  answer_selection-IsAnswer :
      (rd : Readings) (i o e a : Option String) (s : db.State) (q : Result Error Lookup)
      → select_consent db parse_uuid i o e a s ≡ q
      → {v : ConsentResponseInternalView} → (answer_selection db parse_uuid rd q s).0 ≡ ok v
      → IsAnswer db parse_uuid row i o e a rd s (answer_selection db parse_uuid rd q s).1 v
  unfolding answer_selection
  answer_selection-IsAnswer rd i o e a s (err x) q h = absurd (ground arith)
  answer_selection-IsAnswer rd i o e a s (ok missing) q h = absurd (ground arith)
  answer_selection-IsAnswer rd i o e a s (ok failed) q h = absurd (ground arith)
  answer_selection-IsAnswer rd i o e a s (ok (found r)) q h =
      let (there, asked_for) = select_consent-IsSelected i o e a s r q in
      record {
        asked = r;
        stored_before = there;
        selected = asked_for;
        same_key = refresh_consent-key rd r s h;
        current = refresh_consent-IsCurrent rd r s there h;
      }

-- A successful GetConsentInternalView answers with a row that its arguments select, under that
-- row's id. The view shows the row that the table holds after the call: the one selected, or it
-- with status expired, updated at the time of that write, and nothing else changed. That row is neither
-- a pending consent past its pending deadline nor an approved one past its grant's end, at the
-- two readings of the clock.
pub get_consent_internal_view-IsAnswer :
    (db : ConsentDb) (parse_uuid : String → Option String)
    (row : db.State → String → Option ConsentRecord)
    → IsTable db row
    → (rd : Readings) (consent_id owner_id owner_email app_id : Option String) (s : db.State)
      {v : ConsentResponseInternalView}
    → (get_consent_internal_view db parse_uuid rd consent_id owner_id owner_email app_id s).0 ≡ ok v
    → IsAnswer db parse_uuid row consent_id owner_id owner_email app_id rd s
        (get_consent_internal_view db parse_uuid rd consent_id owner_id owner_email app_id s).1
        v
unfolding get_consent_internal_view
get_consent_internal_view-IsAnswer db parse_uuid row t rd i o e a s h =
    answer_selection-IsAnswer db parse_uuid row t rd i o e a s
      (select_consent db parse_uuid i o e a s) refl h
