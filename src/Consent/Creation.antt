-- ===== src/Consent/Creation.antt =====
-- What a successful CreateConsentRecord gives.
use opendif_core.Base.{
  Bool, Bool-cases, Option, Option-cases, Result, String, ap, arith, err, false, inl, inr, none, ok,
  refl, some, true, ◌∙◌, ◌≡◌,
}
use opendif_core.Consent.Comparison.{are_consent_fields_equal_iff}
use opendif_core.Consent.Create.{
  create_after_revoke, create_consent_record, create_or_reuse, create_validated, insert_consent,
  is_not_found, revoke_and_create_consent, revoke_and_create_selected, revoke_and_create_tx,
}
use opendif_core.Consent.Database.{ConsentDb, IsTable, Lookup, failed, found, missing}
use opendif_core.Consent.Expiry.{IsAnswer, get_consent_internal_view-IsAnswer}
use opendif_core.Consent.Models.{
  ConsentRecord, ConsentResponseInternalView, CreateConsentRequest, Error, is_active,
  to_internal_view,
}
use opendif_core.Consent.Rules.{
  Readings, are_consent_fields_equal, build_consent_record, validate_create_consent_request,
}
use opendif_core.Consent.Writes.{create-IsWritten}

module _ (db : ConsentDb) (parse_uuid : String → Option String)
    (row : db.State → String → Option ConsentRecord) where
  -- The reply `v` to `req` shows a stored consent in force for the owner, application and fields.
  pub record IsServed (req : CreateConsentRequest) (s : db.State) (v : ConsentResponseInternalView)
      : Type 0 where
    pub consent : ConsentRecord
    pub stored : row s consent.consent_id ≡ some consent
    pub view : v ≡ to_internal_view consent
    pub in_force : is_active consent.status ≡ true
    pub owner : consent.owner_id ≡ req.consent_requirement.owner_id
    pub app : consent.app_id ≡ req.app_id
    pub fields : consent.fields ≡ req.consent_requirement.fields

view-status : (r : ConsentRecord) → (to_internal_view r).status ≡ r.status
unfolding to_internal_view
view-status r = refl

view-fields :
    (r : ConsentRecord) → is_active r.status ≡ true → (to_internal_view r).fields ≡ some r.fields
unfolding to_internal_view
view-fields r h = rw h

module _ (db : ConsentDb) (parse_uuid : String → Option String)
    (row : db.State → String → Option ConsentRecord) (t : IsTable db row) (base_url : String)
    (rd : Readings) (req : CreateConsentRequest) where
  built-IsServed :
      (s : db.State)
      → row s rd.new_id ≡ some (build_consent_record base_url rd req)
      → IsServed db parse_uuid row req s (to_internal_view (build_consent_record base_url rd req))
  unfolding build_consent_record
  built-IsServed s h = record {
    consent = build_consent_record base_url rd req;
    stored = h;
    view = refl;
    in_force = refl;
    owner = refl;
    app = refl;
    fields = refl;
  }

  create_built :
      (s : db.State)
      → (db.create (build_consent_record base_url rd req) s).0 ≡ true
      → row (db.create (build_consent_record base_url rd req) s).1 rd.new_id
        ≡ some (build_consent_record base_url rd req)
  unfolding build_consent_record
  create_built s h = (create-IsWritten db row t (build_consent_record base_url rd req) s h).at_key

  insert_consent-IsServed :
      (s : db.State) {v : ConsentResponseInternalView}
      → (insert_consent db parse_uuid base_url rd req s).0 ≡ ok v
      → IsServed db parse_uuid row req (insert_consent db parse_uuid base_url rd req s).1 v
  unfolding insert_consent
  insert_consent-IsServed s {v} h =
      let e : v ≡ to_internal_view (build_consent_record base_url rd req) = ground arith in
      simp e (built-IsServed _ (create_built s (ground arith)))

  create_after_revoke-stored :
      (b : Bool) (s : db.State)
      → (create_after_revoke db parse_uuid (build_consent_record base_url rd req) (b, s)).0 ≡ none
      → row
          (create_after_revoke db parse_uuid (build_consent_record base_url rd req) (b, s)).1
          rd.new_id
        ≡ some (build_consent_record base_url rd req)
  unfolding create_after_revoke
  create_after_revoke-stored true s h = create_built s (ground arith)
  create_after_revoke-stored false s h = absurd (ground arith)

  revoke_and_create_selected-stored :
      (q : Lookup) (s : db.State)
      → (revoke_and_create_selected db parse_uuid rd (build_consent_record base_url rd req) q s).0
        ≡ none
      → row
          (revoke_and_create_selected db parse_uuid rd (build_consent_record base_url rd req) q s).1
          rd.new_id
        ≡ some (build_consent_record base_url rd req)
  unfolding revoke_and_create_selected
  revoke_and_create_selected-stored missing s h = absurd (ground arith)
  revoke_and_create_selected-stored failed s h = absurd (ground arith)
  revoke_and_create_selected-stored (found r) s h = elim (Bool-cases (is_active r.status)) [
    | inr over ↦ absurd (ground arith)
    | inl live ↦
        rw (live, revoke_and_create_selected)
          (create_after_revoke-stored _ _ (rw (live, revoke_and_create_selected) at h))
  ]

  revoke_and_create_tx-stored :
      (existing_id : String) (s : db.State)
      → (revoke_and_create_tx db parse_uuid existing_id rd
          (build_consent_record base_url rd req)
          s).0
        ≡ none
      → row
          (revoke_and_create_tx db parse_uuid existing_id rd
            (build_consent_record base_url rd req)
            s).1
          rd.new_id
        ≡ some (build_consent_record base_url rd req)
  unfolding revoke_and_create_tx
  revoke_and_create_tx-stored existing_id s h = elim (Option-cases (parse_uuid existing_id)) [
    | inl no_id ↦ absurd (ground arith)
    | inr (u, p) ↦
        rw (p, revoke_and_create_tx)
          (revoke_and_create_selected-stored _ s (rw (p, revoke_and_create_tx) at h))
  ]

  revoke_and_create_consent-IsServed :
      (existing_id : String) (s : db.State) {v : ConsentResponseInternalView}
      → (revoke_and_create_consent db parse_uuid base_url rd existing_id req s).0 ≡ ok v
      → IsServed db parse_uuid row req
          (revoke_and_create_consent db parse_uuid base_url rd existing_id req s).1
          v
  unfolding revoke_and_create_consent
  revoke_and_create_consent-IsServed existing_id s {v} h =
      let f =
        revoke_and_create_tx db parse_uuid existing_id rd (build_consent_record base_url rd req) in
      let nil : (db.transaction f s).0 ≡ none = ground arith in
      let e : v ≡ to_internal_view (build_consent_record base_url rd req) = ground arith in
      let (done, kept) = t.commit f s rd.new_id nil in
      simp e (built-IsServed _ (kept ∙ revoke_and_create_tx-stored existing_id s done))

  abbrev Answer : db.State → db.State → ConsentResponseInternalView → Type 0
  Answer =
      IsAnswer db parse_uuid row none (some req.consent_requirement.owner_id)
        (some req.consent_requirement.owner_email) (some req.app_id) rd

  -- a consent that the look-up found, and that is given back
  reuse-IsServed :
      (s s' : db.State) (v : ConsentResponseInternalView)
      → Answer s s' v
      → is_active v.status ≡ true
      → are_consent_fields_equal v.fields (some req.consent_requirement.fields) ≡ true
      → IsServed db parse_uuid row req s' v
  reuse-IsServed s s' v a live same =
      let c = a.current.shown in
      let status : v.status ≡ c.status = ap (λ w. w.status) a.current.view ∙ view-status c in
      let in_force : is_active c.status ≡ true = rw status at live in
      record {
        consent = c;
        stored = a.current.stored;
        view = a.current.view;
        in_force = in_force;
        owner = ground (arith, a.current.kept, a.selected);
        app = ground (arith, a.current.kept, a.selected);
        fields = ground (
          arith,
          (are_consent_fields_equal_iff v.fields (some req.consent_requirement.fields)).0 same,
          ap (λ (w : ConsentResponseInternalView). w.fields) a.current.view,
          view-fields c in_force,
        );
      }

  create_or_reuse-IsServed :
      (s s' : db.State) (q : Result Error ConsentResponseInternalView)
      → ((v : ConsentResponseInternalView) → q ≡ ok v → Answer s s' v)
      → {v : ConsentResponseInternalView}
      → (create_or_reuse db parse_uuid base_url rd req q s').0 ≡ ok v
      → IsServed db parse_uuid row req (create_or_reuse db parse_uuid base_url rd req q s').1 v
  unfolding create_or_reuse
  create_or_reuse-IsServed s s' (ok w) a {v} h = elim (Bool-cases (is_active w.status)) [
    | inr over ↦
        rw (over, create_or_reuse) (insert_consent-IsServed s' (rw (over, create_or_reuse) at h))
    | inl live ↦
        elim (Bool-cases
          (are_consent_fields_equal w.fields (some req.consent_requirement.fields))) [
            | inl same ↦
                let e : w ≡ v = ground arith in
                rw (live, same, create_or_reuse)
                  (rw e at (reuse-IsServed s s' w (a w refl) live same))
            | inr other ↦
                rw (live, other, create_or_reuse)
                  (revoke_and_create_consent-IsServed w.consent_id s'
                    (rw (live, other, create_or_reuse) at h))
          ]
  ]
  create_or_reuse-IsServed s s' (err e) a h = elim (Bool-cases (is_not_found e)) [
    | inl lost ↦
        rw (lost, create_or_reuse) (insert_consent-IsServed s' (rw (lost, create_or_reuse) at h))
    | inr other ↦ absurd (ground arith)
  ]

  create_validated-IsServed :
      (e : Option Error) (s : db.State) {v : ConsentResponseInternalView}
      → (create_validated db parse_uuid base_url rd req e s).0 ≡ ok v
      → IsServed db parse_uuid row req (create_validated db parse_uuid base_url rd req e s).1 v
  unfolding create_validated
  create_validated-IsServed (some e) s h = absurd (ground arith)
  create_validated-IsServed none s h =
      create_or_reuse-IsServed s _ _
        (λ v q. get_consent_internal_view-IsAnswer db parse_uuid row t rd none _ _ _ s q) h

  -- A successful CreateConsentRecord replies with a consent that the table then holds, pending or
  -- approved, for the owner's id, the application and exactly the fields of the request: the one
  -- that was in force, or a new one.
  pub create_consent_record-IsServed :
      (s : db.State) {v : ConsentResponseInternalView}
      → (create_consent_record db parse_uuid base_url rd req s).0 ≡ ok v
      → IsServed db parse_uuid row req (create_consent_record db parse_uuid base_url rd req s).1 v
  unfolding create_consent_record
  create_consent_record-IsServed s h =
      create_validated-IsServed (validate_create_consent_request req) s h
