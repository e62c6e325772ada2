-- ===== src/Portal/Approvals.antt =====
-- What UpdateApplicationSubmission does to the applications and the submissions.
use opendif_core.Base.{
  Bool, Bool-cases, List, Option-cases, Result, String, ap, err, false, inl, inr, none, ok, refl,
  some, subst, sym, true, ℕ, ◌==◌, ◌∙◌, ◌∷◌, ◌≡◌, ◌⊎◌,
}
use opendif_core.Portal.ApplicationRecords.{ApplicationResponse}
use opendif_core.Portal.Applications.{create_application, new_application}
use opendif_core.Portal.Rows.{first_where, or_else, or_keep, read_first, read_first_ok, save_where}
use opendif_core.Portal.Sagas.{IsAtomic, create_application-IsAtomic}
use opendif_core.Portal.SubmissionRecords.{
  ApplicationSubmission, ApplicationSubmissionResponse, SubmissionReplies,
  UpdateApplicationSubmissionRequest,
}
use opendif_core.Portal.Submissions.{
  World, approve_submission, approves, change_submission, check_previous, has_submission_id,
  new_fields, pending_submission, request_of_submission, save_in, submission_response,
  update_application_submission,
}

module _ (format : ℕ → String) (r : SubmissionReplies) (new_id : String)
    (saved_at created_at pending_at : ℕ) (req : UpdateApplicationSubmissionRequest)
    (w : World) where
  -- the row with what the request changes, at the time of the save
  abbrev changed : ApplicationSubmission → ApplicationSubmission
  changed s = record s {
    previous_application_id = or_keep req.previous_application_id s.previous_application_id;
    application_name = or_else req.application_name s.application_name;
    application_description = or_keep req.application_description s.application_description;
    selected_fields = new_fields req.selected_fields s.selected_fields;
    status = or_else req.status s.status;
    review = or_keep req.review s.review;
    updated_at = saved_at;
  }

  -- An approval has made an application of the submission, and nothing else has.
  abbrev pub IsApplied : Bool → ApplicationSubmission → World → Type 0
  IsApplied true s after =
      (i : String) × (c : String) × (after.applications
        ≡ new_application format r.create new_id created_at (request_of_submission (changed s)) i c
          ∷ w.applications)
  IsApplied false s after = after.applications ≡ w.applications

  abbrev pub saved : ApplicationSubmission → List ApplicationSubmission
  saved s = save_where (has_submission_id s.submission_id) (changed s) w.submissions

  abbrev pub saved_pending : ApplicationSubmission → List ApplicationSubmission
  saved_pending s =
      save_where (has_submission_id s.submission_id)
        (record (changed s) { status = "pending"; updated_at = pending_at }) (saved s)

  abbrev pub IsUpdated : String → Result String ApplicationSubmissionResponse × World → Type 0
  IsUpdated id (ok resp, after) =
      (s : ApplicationSubmission) × (first_where (has_submission_id id) w.submissions ≡ some s)
      × (resp ≡ submission_response format (changed s))
      × (after.submissions ≡ saved s)
      × IsApplied (approves req) s after
  IsUpdated id (err e, after) =
      (after.applications ≡ w.applications)
      × ((after.submissions ≡ w.submissions)
          ⊎ ((s : ApplicationSubmission) × (first_where (has_submission_id id) w.submissions
                ≡ some s)
              × (approves req ≡ true)
              × (after.submissions ≡ saved_pending s)))

  module _ (no_db : r.create.db_delete ≡ none) (no_idp : r.create.idp_delete ≡ none)
      (new_row : first_where (λ a. a.application_id == new_id) w.applications ≡ none)
      (new_app : (i : String)
        → r.create.idp_create ≡ ok i
        → first_where (λ j. j == i) w.idp_applications ≡ none)
      (no_pending : r.save_pending ≡ none) where
    approve_submission-IsUpdated :
        (id : String) (s : ApplicationSubmission)
        → first_where (has_submission_id id) w.submissions ≡ some s
        → approves req ≡ true
        → IsUpdated id (
            approve_submission format r new_id saved_at created_at pending_at req
              (changed s)
              (save_in (changed s) w))
    unfolding approve_submission
    approve_submission-IsUpdated id s there yes_it_does =
        split
          (create_application format r.create new_id created_at (request_of_submission (changed s))
            (save_in (changed s) w))
          refl
          (create_application-IsAtomic format r.create new_id created_at
            (request_of_submission (changed s)) (save_in (changed s) w) no_db no_idp new_row
            new_app)
      where
        split :
            (v : Result String ApplicationResponse × World)
            → create_application format r.create new_id created_at
                (request_of_submission (changed s))
                (save_in (changed s) w)
              ≡ v
            → IsAtomic format r.create new_id created_at
                (request_of_submission (changed s))
                (save_in (changed s) w)
                v
            → IsUpdated id (
                approve_submission format r new_id saved_at created_at pending_at req
                  (changed s)
                  (save_in (changed s) w))
        split (ok a, after) h (i, c, e1, e2, e3, e4) =
            let left_world = ap (λ p. p.1) h ∙ e4 in
            rw (h, approve_submission)
              (
                s,
                there,
                refl,
                ap (λ x. x.submissions) left_world,
                rw yes_it_does (i, c, ap (λ x. x.applications) left_world),
              )
        split (err e, after) h (inl same) =
            let left_world = ap (λ p. p.1) h ∙ same in
            rw (h, no_pending, approve_submission)
              (
                ap (λ x. x.applications) left_world,
                inr (
                  s,
                  there,
                  yes_it_does,
                  ap (λ x. (save_in (pending_submission pending_at (changed s)) x).submissions)
                      left_world,
                ),
              )
        split (err e, after) h (inr (i, d, e1, e2, e3)) =
            let left_world = ap (λ p. p.1) h ∙ e3 in
            rw (h, no_pending, approve_submission)
              (
                ap (λ x. x.applications) left_world,
                inr (
                  s,
                  there,
                  yes_it_does,
                  ap (λ x. (save_in (pending_submission pending_at (changed s)) x).submissions)
                      left_world,
                ),
              )

    change_submission-IsUpdated :
        (id : String) (s : ApplicationSubmission)
        → first_where (has_submission_id id) w.submissions ≡ some s
        → IsUpdated id
            (change_submission format r new_id saved_at created_at pending_at req (changed s) w)
    unfolding change_submission
    change_submission-IsUpdated id s there = elim (Option-cases r.save_submission) [
      | inr (e, failed_save) ↦ rw (failed_save, change_submission) (refl, inl refl)
      | inl saved_it ↦ elim (Bool-cases (approves req)) [
        | inl yes_it_does ↦
            rw (saved_it, yes_it_does, change_submission)
              (approve_submission-IsUpdated id s there yes_it_does)
        | inr no_it_does_not ↦
            rw (saved_it, no_it_does_not, change_submission)
              (
                s,
                there,
                refl,
                refl,
                subst (λ b. IsApplied b s (save_in (changed s) w)) (sym no_it_does_not) refl,
              )
      ]
    ]

    -- Where the calls that undo its steps succeed and the new ids are not in use,
    -- UpdateApplicationSubmission either succeeds, with the changed row, and with one more
    -- application, that of the row, just where the request approves, whatever the status was before;
    -- or it fails with no more applications than before, and the row is as it was, or changed and
    -- pending where the request approves.
    pub update_application_submission-IsUpdated :
        (id : String)
        → IsUpdated id
            (update_application_submission format r new_id saved_at created_at pending_at req id w)
    unfolding update_application_submission
    update_application_submission-IsUpdated id =
        split (read_first r.read_submission (has_submission_id id) w.submissions) refl
          (check_previous format r new_id saved_at created_at pending_at req w) refl
      where
        split :
            (v : Result String ApplicationSubmission)
            → read_first r.read_submission (has_submission_id id) w.submissions ≡ v
            → (u : Result String Unit)
            → check_previous format r new_id saved_at created_at pending_at req w ≡ u
            → IsUpdated id (
                update_application_submission format r new_id saved_at created_at pending_at req id
                  w)
        split (err e) h u k = rw (h, update_application_submission) (refl, inl refl)
        split (ok s) h (err e) k = rw (h, k, update_application_submission) (refl, inl refl)
        split (ok s) h (ok u) k =
            rw (h, k, update_application_submission)
              (change_submission-IsUpdated id s
                (read_first_ok r.read_submission (has_submission_id id) w.submissions h))
