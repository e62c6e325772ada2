-- ===== src/Consent/Owned.antt =====
-- What the reply of UpdateConsent of the portal handler means for the table.
use opendif_core.Base.{
  Bool-cases, Option, Option-cases, Result, Result-cases, String, [], arith, eq_iff, err, inl, inr,
  none, not, ok, refl, some, sym, ℕ, ◌&&◌, ◌==◌, ◌∙◌, ◌∷◌, ◌≡◌,
}
use opendif_core.Consent.Database.{ConsentDb, IsTable, Lookup, failed, found, missing}
use opendif_core.Consent.Handlers.{
  PortalRequest, Reply, UpdateReply, check_portal_request, code_forbidden, portal_update_consent,
  read_owned, read_refused, reply_updated, status_of_action, update_owned,
}
use opendif_core.Consent.Models.{
  ConsentPortalActionRequest, ConsentRecord, ConsentResponsePortalView, Error, action_approve,
  action_reject, cause, consent_not_found, get_failed, gorm_not_found, to_portal_view,
}
use opendif_core.Consent.Outcomes.{IsRewritten, Outcome}
use opendif_core.Consent.Portal.{IsValidAction, decided, update_consent_status-Outcome}
use opendif_core.Consent.Views.{get_consent_portal_view}

-- what UpdateConsent asks of the service
abbrev pub asked_of_service : PortalRequest → (mail action : String) → ConsentPortalActionRequest
asked_of_service rq mail action = record {
  consent_id = rq.consent_id;
  action = action;
  updated_by = mail;
}

-- a valid action on a record of the user
abbrev pub IsOwnAction : PortalRequest → (mail action : String) → ConsentRecord → Type 0
IsOwnAction rq mail action r =
    IsValidAction (asked_of_service rq mail action) r × (r.owner_email ≡ mail)

module _ (db : ConsentDb) (parse_uuid : String → Option String)
    (row : db.State → String → Option ConsentRecord) (t : IsTable db row) where
  -- The user of the request owns the row of the request's id, which goes from `s` to `s'` as the
  -- request's action says, and it alone; the payload names its new status.
  pub record IsOwnUpdate (rq : PortalRequest) (now : ℕ) (s s' : db.State) (status : String)
      : Type 0 where
    pub mail : String
    pub action : String
    pub user_is : rq.user_email ≡ some mail
    pub action_is : rq.action_body ≡ some action
    pub rewritten :
        IsRewritten db parse_uuid row
          (IsOwnAction rq mail action)
          (decided (asked_of_service rq mail action) now)
          rq.consent_id
          s
          s'
    pub status_is : status ≡ (decided (asked_of_service rq mail action) now rewritten.old).status

  abbrev pub OwnOutcome : PortalRequest → ℕ → db.State → Reply UpdateReply × db.State → Type 0
  OwnOutcome rq now s (ok (code, body), s') = (code ≡ 200) × IsOwnUpdate rq now s s' body.status
  OwnOutcome rq now s (err e, s') = (id : String) → row s' id ≡ row s id

  get_consent_portal_view-owner :
      (id u : String) (s : db.State) (view : ConsentResponsePortalView) (r : ConsentRecord)
      → parse_uuid id ≡ some u
      → row s u ≡ some r
      → get_consent_portal_view db parse_uuid id s ≡ ok view
      → view.owner_email ≡ r.owner_email
  unfolding get_consent_portal_view to_portal_view
  get_consent_portal_view-owner id u s view r p h e = of_lookup (db.first_by_id u s) refl
    where
      of_lookup : (q : Lookup) → db.first_by_id u s ≡ q → view.owner_email ≡ r.owner_email
      of_lookup (found x) f =
          let there = t.first_row u s x f in
          let shown : ◌≡◌ {A = Result Error ConsentResponsePortalView} (ok (to_portal_view x))
              (ok view) =
            rw (p, f, get_consent_portal_view) at e in
          ground (arith, shown, there, h)
      of_lookup missing f =
          let shown : ◌≡◌ {A = Result Error ConsentResponsePortalView}
              (err (consent_not_found ∷ gorm_not_found ∷ [])) (ok view) =
            rw (p, f, get_consent_portal_view) at e in
          absurd (ground (arith, shown))
      of_lookup failed f =
          let shown : ◌≡◌ {A = Result Error ConsentResponsePortalView}
              (err (get_failed ∷ cause ∷ [])) (ok view) =
            rw (p, f, get_consent_portal_view) at e in
          absurd (ground (arith, shown))

  read_owned-owner :
      (rq : PortalRequest) (mail u : String) (s : db.State) (view : ConsentResponsePortalView)
      (r : ConsentRecord)
      → parse_uuid rq.consent_id ≡ some u
      → row s u ≡ some r
      → read_owned db parse_uuid mail rq s ≡ ok view
      → r.owner_email ≡ mail
  unfolding read_owned
  read_owned-owner rq mail u s view r p h e =
      elim (Result-cases (get_consent_portal_view db parse_uuid rq.consent_id s)) [
        | inl (x, f) ↦
            let shown : ◌≡◌ {A = Result (ℕ × String) ConsentResponsePortalView}
                (err (read_refused rq.read_cancelled x)) (ok view) =
              rw (f, read_owned) at e in
            absurd (ground (arith, shown))
        | inr (v, f) ↦
            let same = get_consent_portal_view-owner rq.consent_id u s v r p h f in
            elim (Bool-cases (v.owner_email == mail)) [
              | inl own ↦ sym same ∙ (eq_iff _ _).0 own
              | inr other ↦
                  let shown : ◌≡◌ {A = Result (ℕ × String) ConsentResponsePortalView}
                      (err (403, code_forbidden)) (ok view) =
                    rw (f, other, read_owned) at e in
                  absurd (ground (arith, shown))
            ]
      ]

  decided-status :
      (rq : PortalRequest) (mail action : String) (now : ℕ) (r : ConsentRecord)
      → IsValidAction (asked_of_service rq mail action) r
      → status_of_action action ≡ (decided (asked_of_service rq mail action) now r).status
  decided-status rq mail action now r (inl a) = rw a
  decided-status rq mail action now r (inr b) = rw b

  reply_updated-OwnOutcome :
      (rq : PortalRequest) (mail action : String) (now : ℕ) (s : db.State)
      (view : ConsentResponsePortalView)
      → rq.user_email ≡ some mail
      → rq.action_body ≡ some action
      → read_owned db parse_uuid mail rq s ≡ ok view
      → (done : Option Error × db.State)
      → Outcome db parse_uuid row
          (IsValidAction (asked_of_service rq mail action))
          (decided (asked_of_service rq mail action) now)
          rq.consent_id
          s
          done
      → OwnOutcome rq now s (reply_updated db parse_uuid rq.write_cancelled action done)
  unfolding reply_updated
  reply_updated-OwnOutcome rq mail action now s view a b o (some e, s') w = w
  reply_updated-OwnOutcome rq mail action now s view a b o (none, s') w = (
    refl,
    record {
      mail = mail;
      action = action;
      user_is = a;
      action_is = b;
      rewritten = record {
        old = w.old;
        parsed = w.parsed;
        was = w.was;
        held = (w.held, read_owned-owner rq mail w.old.consent_id s view w.old w.parsed w.was o);
        now_is = w.now_is;
        elsewhere = w.elsewhere;
      };
      status_is = decided-status rq mail action now w.old w.held;
    },
  )

  update_owned-OwnOutcome :
      (rq : PortalRequest) (mail action : String) (now : ℕ) (s : db.State)
      → rq.user_email ≡ some mail
      → rq.action_body ≡ some action
      → OwnOutcome rq now s (update_owned db parse_uuid mail action rq now s)
  unfolding update_owned
  update_owned-OwnOutcome rq mail action now s a b =
      elim (Bool-cases (not (action == action_approve) && not (action == action_reject))) [
        | inl bad ↦ rw (bad, update_owned) (λ id. refl)
        | inr good ↦ elim (Result-cases (read_owned db parse_uuid mail rq s)) [
          | inl (x, f) ↦ rw (good, f, update_owned) (λ id. refl)
          | inr (v, f) ↦
              rw (good, f, update_owned)
                (reply_updated-OwnOutcome rq mail action now s v a b f _ (
                  update_consent_status-Outcome db parse_uuid row t
                    (asked_of_service rq mail action) now s))
        ]
      ]

  check_portal_request-user :
      (verb : String) (rq : PortalRequest) (mail : String)
      → check_portal_request db parse_uuid verb rq ≡ ok mail
      → rq.user_email ≡ some mail
  unfolding check_portal_request
  check_portal_request-user verb rq mail e = ground arith

  -- UpdateConsent of the portal handler that answers with a payload answers 200, and has made
  -- the approval or the rejection that its body asks for on the row of its id, which belongs to
  -- the user that the middleware authenticated, whom the row names as its updater from then on;
  -- no other row has changed, and the payload names the new status of the row. One that answers
  -- with an error code has changed no row.
  pub portal_update_consent-OwnOutcome :
      (rq : PortalRequest) (now : ℕ) (s : db.State)
      → OwnOutcome rq now s (portal_update_consent db parse_uuid rq now s)
  unfolding portal_update_consent
  portal_update_consent-OwnOutcome rq now s =
      elim (Result-cases (check_portal_request db parse_uuid "PUT" rq)) [
        | inl (x, f) ↦ rw (f, portal_update_consent) (λ id. refl)
        | inr (mail, f) ↦ elim (Option-cases rq.action_body) [
          | inl b ↦ rw (f, b, portal_update_consent) (λ id. refl)
          | inr (action, b) ↦
              rw (f, portal_update_consent)
                (simp b (
                  update_owned-OwnOutcome rq mail action now s
                    (check_portal_request-user "PUT" rq mail f) b))
        ]
      ]
