-- ===== src/Consent/Preservation.antt =====
-- Every operation of the service takes each row through changes of its life.
pub mod Creation
use opendif_core.Base.{
  Bool-cases, Option, Option-cases, Result, String, arith, err, inl, inr, ok, refl, some, ℕ, ◌==◌,
  ◌≡◌,
}
use opendif_core.Consent.Database.{ConsentDb, IsTable, Lookup, failed, found, missing, saved}
use opendif_core.Consent.Expiry.{select_consent-IsSelected}
use opendif_core.Consent.Lifecycle.{
  Change, Changes, Changes-trans, approve, expire, here, reject, revoke, save-Changes,
}
use opendif_core.Consent.Models.{
  ConsentPortalActionRequest, ConsentRecord, Error, action_approve, action_reject, is_active,
}
use opendif_core.Consent.Rules.{Readings, is_valid_consent_portal_action}
use opendif_core.Consent.Updates.{
  apply_action, revoke_consent, revoke_found, revoke_selected, revoke_tx,
  update_consent_status_by_portal_action, update_found, update_selected,
}
use opendif_core.Consent.Views.{
  answer_selection, get_consent_internal_view, grant_overdue, pending_overdue, refresh_consent,
  save_expired, select_consent,
}

module _ (db : ConsentDb) (parse_uuid : String → Option String)
    (row : db.State → String → Option ConsentRecord) (t : IsTable db row) where
  -- What an operation that ends in `s'` from `s` did to the table.
  abbrev pub Evolves : db.State → db.State → Type 0
  Evolves s s' = (id : String) → Changes (row s id) (row s' id)

  pub Evolves-trans : (s u v : db.State) → Evolves s u → Evolves u v → Evolves s v
  Evolves-trans s u v a b id = Changes-trans (a id) (b id)

  first_stored :
      (u : String) (s : db.State) (r : ConsentRecord)
      → db.first_by_id u s ≡ found r
      → row s r.consent_id ≡ some r
  first_stored u s r f = let there = t.first_row u s r f in simp (t.row_key u s r there) there

  -- a write of the record `r'` for the stored record that a query found
  pub save-Evolves :
      (u : String) (r r' : ConsentRecord) (s : db.State)
      → db.first_by_id u s ≡ found r
      → r'.consent_id ≡ r.consent_id
      → Change (some r) (some (saved db s r'))
      → Evolves s (db.save r' s).1
  save-Evolves u r r' s f = save-Changes db row t r r' s (first_stored u s r f)

  refresh_consent-Evolves :
      (rd : Readings) (r : ConsentRecord) (s : db.State)
      → row s r.consent_id ≡ some r
      → Evolves s (refresh_consent db parse_uuid rd r s).1
  unfolding refresh_consent save_expired
  refresh_consent-Evolves rd r s there id = elim (Bool-cases (pending_overdue r rd.pending_check)) [
    | inl late ↦
        rw (late, refresh_consent)
          (save-Changes db row t r _ s there refl (expire r _ (ground arith)) id)
    | inr pending ↦ elim (Bool-cases (grant_overdue r rd.grant_check)) [
      | inl late ↦
          rw (pending, late, refresh_consent)
            (save-Changes db row t r _ s there refl (expire r _ (ground arith)) id)
      | inr grant ↦ rw (pending, grant, refresh_consent) here
    ]
  ]

  answer_selection-Evolves :
      (rd : Readings) (i o e a : Option String) (s : db.State) (q : Result Error Lookup)
      → select_consent db parse_uuid i o e a s ≡ q
      → Evolves s (answer_selection db parse_uuid rd q s).1
  unfolding answer_selection
  answer_selection-Evolves rd i o e a s (ok (found r)) q id =
      refresh_consent-Evolves rd r s (select_consent-IsSelected db parse_uuid row t i o e a s r q).0
        id
  answer_selection-Evolves rd i o e a s (ok missing) q id = here
  answer_selection-Evolves rd i o e a s (ok failed) q id = here
  answer_selection-Evolves rd i o e a s (err x) q id = here

  pub get_consent_internal_view-Evolves :
      (rd : Readings) (i o e a : Option String) (s : db.State)
      → Evolves s (get_consent_internal_view db parse_uuid rd i o e a s).1
  unfolding get_consent_internal_view
  get_consent_internal_view-Evolves rd i o e a s =
      answer_selection-Evolves rd i o e a s (select_consent db parse_uuid i o e a s) refl

  pub transaction-Evolves :
      (f : db.State → Option Error × db.State) (s : db.State)
      → Evolves s (f s).1
      → Evolves s (db.transaction f s).1
  transaction-Evolves f s e id = elim (Option-cases (db.transaction f s).0) [
    | inl done ↦ simp ((t.commit f s id done).1) (e id)
    | inr (x, undone) ↦ simp (t.rollback f s id x undone) here
  ]

  update_found-Evolves :
      (req : ConsentPortalActionRequest) (now : ℕ) (u : String) (r : ConsentRecord) (s : db.State)
      → db.first_by_id u s ≡ found r
      → Evolves s (update_found db parse_uuid req now r s).1
  unfolding update_found apply_action
  update_found-Evolves req now u r s f id = elim (Bool-cases (req.action == action_approve)) [
    | inl a ↦
        rw (a, update_found, apply_action)
          (save-Evolves u r _ s f refl (approve r now req.updated_by _) id)
    | inr a ↦ elim (Bool-cases (req.action == action_reject)) [
      | inl b ↦
          rw (a, b, update_found, apply_action)
            (save-Evolves u r _ s f refl (reject r now req.updated_by _) id)
      | inr b ↦ rw (a, b, update_found, apply_action) here
    ]
  ]

  update_selected-Evolves :
      (req : ConsentPortalActionRequest) (now : ℕ) (u : String) (s : db.State) (q : Lookup)
      → db.first_by_id u s ≡ q
      → Evolves s (update_selected db parse_uuid req now q s).1
  unfolding update_selected
  update_selected-Evolves req now u s (found r) q id = update_found-Evolves req now u r s q id
  update_selected-Evolves req now u s missing q id = here
  update_selected-Evolves req now u s failed q id = here

  pub update_consent_status_by_portal_action-Evolves :
      (req : ConsentPortalActionRequest) (now : ℕ) (s : db.State)
      → Evolves s (update_consent_status_by_portal_action db parse_uuid req now s).1
  unfolding update_consent_status_by_portal_action
  update_consent_status_by_portal_action-Evolves req now s id =
      elim (Bool-cases (is_valid_consent_portal_action req.action)) [
        | inr bad ↦ rw (bad, update_consent_status_by_portal_action) here
        | inl good ↦ elim (Option-cases (parse_uuid req.consent_id)) [
          | inl no_id ↦ rw (good, no_id, update_consent_status_by_portal_action) here
          | inr (u, p) ↦
              rw (good, p, update_consent_status_by_portal_action)
                (update_selected-Evolves req now u s (db.first_by_id u s) refl id)
        ]
      ]

  revoke_found-Evolves :
      (by : String) (now : ℕ) (u : String) (r : ConsentRecord) (s : db.State)
      → db.first_by_id u s ≡ found r
      → Evolves s (revoke_found db parse_uuid by now r s).1
  unfolding revoke_found
  revoke_found-Evolves by now u r s f id = elim (Bool-cases (is_active r.status)) [
    | inl live ↦ rw (live, revoke_found) (save-Evolves u r _ s f refl (revoke r now by _ live) id)
    | inr over ↦ rw (over, revoke_found) here
  ]

  revoke_selected-Evolves :
      (by : String) (now : ℕ) (u : String) (s : db.State) (q : Lookup)
      → db.first_by_id u s ≡ q
      → Evolves s (revoke_selected db parse_uuid by now q s).1
  unfolding revoke_selected
  revoke_selected-Evolves by now u s (found r) q id = revoke_found-Evolves by now u r s q id
  revoke_selected-Evolves by now u s missing q id = here
  revoke_selected-Evolves by now u s failed q id = here

  revoke_tx-Evolves :
      (consent_id by : String) (now : ℕ) (s : db.State)
      → Evolves s (revoke_tx db parse_uuid consent_id by now s).1
  unfolding revoke_tx
  revoke_tx-Evolves consent_id by now s id = elim (Option-cases (parse_uuid consent_id)) [
    | inl no_id ↦ rw (no_id, revoke_tx) here
    | inr (u, p) ↦
        rw (p, revoke_tx) (revoke_selected-Evolves by now u s (db.first_by_id u s) refl id)
  ]

  pub revoke_consent-Evolves :
      (consent_id by : String) (now : ℕ) (s : db.State)
      → Evolves s (revoke_consent db parse_uuid consent_id by now s).1
  unfolding revoke_consent
  revoke_consent-Evolves consent_id by now s =
      transaction-Evolves (revoke_tx db parse_uuid consent_id by now) s
        (revoke_tx-Evolves consent_id by now s)
