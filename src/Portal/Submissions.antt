-- ===== src/Portal/Submissions.antt =====
-- Submissions of applications: portal-backend/v1/services/application_service.go.
use Prim.Native.String.{◌++◌ as concat}
use opendif_core.Base.{
  Bool, List, Option, Result, String, elem, err, false, if◌then◌else◌, is_empty, map, none, ok,
  opt_eq, some, true, ℕ, ◌==◌, ◌∷◌,
}
use opendif_core.Portal.ApplicationRecords.{AppWorld, CreateApplicationRequest, SelectedFieldRecord}
use opendif_core.Portal.Applications.{create_application}
use opendif_core.Portal.Rows.{all_where, is_blank, or_else, or_keep, read_first, save_where}
use opendif_core.Portal.SubmissionRecords.{
  ApplicationSubmission, ApplicationSubmissionResponse, CreateApplicationSubmissionRequest,
  SubmissionReplies, UpdateApplicationSubmissionRequest, submission_approved, submission_pending,
}

abbrev pub World : Type 0
World = AppWorld ApplicationSubmission

abbrev pub has_submission_id : String → ApplicationSubmission → Bool
has_submission_id id s = s.submission_id == id

-- a request's list of fields, where it has any
abbrev pub new_fields :
    Option (List SelectedFieldRecord) → List SelectedFieldRecord → List SelectedFieldRecord
new_fields none old = old
new_fields (some fields) old = if is_empty fields then old else fields

-- the row with the changes that the request makes, at the time of the save
abbrev pub changed_submission :
    ℕ → UpdateApplicationSubmissionRequest → ApplicationSubmission → ApplicationSubmission
changed_submission now req s = record {
  submission_id = s.submission_id;
  previous_application_id = or_keep req.previous_application_id s.previous_application_id;
  application_name = or_else req.application_name s.application_name;
  application_description = or_keep req.application_description s.application_description;
  selected_fields = new_fields req.selected_fields s.selected_fields;
  member_id = s.member_id;
  status = or_else req.status s.status;
  review = or_keep req.review s.review;
  created_at = s.created_at;
  updated_at = now;
}

-- the row as pending again, at the time of the second save
abbrev pub pending_submission : ℕ → ApplicationSubmission → ApplicationSubmission
pending_submission now s = record {
  submission_id = s.submission_id;
  previous_application_id = s.previous_application_id;
  application_name = s.application_name;
  application_description = s.application_description;
  selected_fields = s.selected_fields;
  member_id = s.member_id;
  status = submission_pending;
  review = s.review;
  created_at = s.created_at;
  updated_at = now;
}

abbrev pub request_of_submission : ApplicationSubmission → CreateApplicationRequest
request_of_submission s = record {
  application_name = s.application_name;
  application_description = s.application_description;
  selected_fields = s.selected_fields;
  member_id = s.member_id;
}

abbrev pub save_in : ApplicationSubmission → World → World
save_in s w = record {
  applications = w.applications;
  submissions = save_where (has_submission_id s.submission_id) s w.submissions;
  idp_applications = w.idp_applications;
  allow_lists = w.allow_lists;
}

-- *req.Status == "approved"
abbrev pub approves : UpdateApplicationSubmissionRequest → Bool
approves req = opt_eq req.status (some submission_approved)

module _ (format : ℕ → String) where
  abbrev pub submission_response : ApplicationSubmission → ApplicationSubmissionResponse
  submission_response s = record {
    submission_id = s.submission_id;
    previous_application_id = s.previous_application_id;
    application_name = s.application_name;
    application_description = s.application_description;
    selected_fields = s.selected_fields;
    member_id = s.member_id;
    status = s.status;
    created_at = format s.created_at;
    updated_at = format s.updated_at;
    review = s.review;
  }

  -- CreateApplicationSubmission: is the previous application there, is the member, and the row;
  -- a new row has no review
  unfoldable pub create_application_submission :
      (read_previous read_member create_error : Option String)
      → String
      → ℕ
      → CreateApplicationSubmissionRequest
      → (member_ids : List String) → World
      → Result String ApplicationSubmissionResponse × World
  create_application_submission read_previous read_member create_error new_id now req members w =
      let previous : Result String Unit = elim req.previous_application_id [
        | none ↦ ok tt
        | some id ↦ elim (read_first read_previous (λ a. a.application_id == id) w.applications) [
          | err e ↦ err e
          | ok a ↦ ok tt
        ]
      ] in
      let member = read_first read_member (λ m. m == req.member_id) members in
      let s : ApplicationSubmission = record {
        submission_id = concat "sub_" new_id;
        previous_application_id = req.previous_application_id;
        application_name = req.application_name;
        application_description = req.application_description;
        selected_fields = req.selected_fields;
        member_id = req.member_id;
        status = submission_pending;
        review = none;
        created_at = now;
        updated_at = now;
      } in
      elim previous [
        | err e ↦ (err e, w)
        | ok u ↦ elim member [
          | err e ↦ (err e, w)
          | ok m ↦ elim create_error [
            | some e ↦ (err e, w)
            | none ↦ (
              ok (submission_response s),
              record {
                applications = w.applications;
                submissions = s ∷ w.submissions;
                idp_applications = w.idp_applications;
                allow_lists = w.allow_lists;
              },
            )
          ]
        ]
      ]

  module _ (r : SubmissionReplies) (new_id : String) (saved_at created_at pending_at : ℕ)
      (req : UpdateApplicationSubmissionRequest) where
    -- from the creation of the application on, of a saved row
    unfoldable pub approve_submission :
        ApplicationSubmission → World → Result String ApplicationSubmissionResponse × World
    approve_submission s w =
        let (created, after) =
          create_application format r.create new_id created_at (request_of_submission s) w in
        elim created [
          | ok a ↦ (ok (submission_response s), after)
          | err e ↦ elim r.save_pending [
            | some d ↦ (
              err (
                  concat "failed to create application from approved submission: "
                    (concat e (concat ", and failed to compensate submission status: " d))),
              after,
            )
            | none ↦ (
              err (concat "failed to create application from approved submission: " e),
              save_in (pending_submission pending_at s) after,
            )
          ]
        ]

    -- from the save on
    unfoldable pub change_submission :
        ApplicationSubmission → World → Result String ApplicationSubmissionResponse × World
    change_submission s w = elim r.save_submission [
      | some e ↦ (err (concat "failed to update application submission: " e), w)
      | none ↦ elim (approves req) [
        | true ↦ approve_submission s (save_in s w)
        | false ↦ (ok (submission_response s), save_in s w)
      ]
    ]

    -- the previous application of the request, if it names one, is there
    unfoldable pub check_previous : World → Result String Unit
    check_previous w = elim req.previous_application_id [
      | none ↦ ok tt
      | some id ↦ elim (read_first r.read_previous (λ a. a.application_id == id) w.applications) [
        | err e ↦ err (concat "previous application not found: " e)
        | ok a ↦ ok tt
      ]
    ]

    -- UpdateApplicationSubmission
    unfoldable pub update_application_submission :
        String → World → Result String ApplicationSubmissionResponse × World
    update_application_submission id w =
        elim (read_first r.read_submission (has_submission_id id) w.submissions) [
          | err e ↦ (err (concat "application submission not found: " e), w)
          | ok s ↦ elim (check_previous w) [
            | err e ↦ (err e, w)
            | ok u ↦ change_submission (changed_submission saved_at req s) w
          ]
        ]

  -- GetApplicationSubmission
  unfoldable pub get_application_submission :
      Option String → String → World → Result String ApplicationSubmissionResponse
  get_application_submission read_error id w =
      elim (read_first read_error (has_submission_id id) w.submissions) [
        | err e ↦ err e
        | ok s ↦ ok (submission_response s)
      ]

  -- GetApplicationSubmissions; `newest_first` is ORDER BY created_at DESC
  unfoldable pub get_application_submissions :
      Option String
      → (List ApplicationSubmission → List ApplicationSubmission)
      → Option String
      → Option (List String)
      → World
      → Result String (List ApplicationSubmissionResponse)
  get_application_submissions (some e) newest_first member_id statuses w = err e
  get_application_submissions none newest_first member_id statuses w =
      let of_member =
        if is_blank member_id
        then w.submissions
        else all_where (λ s. opt_eq (some s.member_id) member_id) w.submissions in
      let chosen_rows : List ApplicationSubmission = elim statuses [
        | none ↦ of_member
        | some wanted ↦
            if is_empty wanted then of_member else all_where (λ s. elem s.status wanted) of_member
      ] in
      ok (map submission_response (newest_first chosen_rows))
