-- ===== src/Portal/SchemaSubmissions.antt =====
-- Submissions of schemas: portal-backend/v1/services/schema_service.go.
use Prim.Native.String.{◌++◌ as concat}
use opendif_core.Base.{
  Bool, List, Option, Result, String, elem, err, false, if◌then◌else◌, is_empty, map, none, ok,
  opt_eq, some, true, ℕ, ◌==◌, ◌∷◌,
}
use opendif_core.Portal.Rows.{all_where, is_blank, or_else, or_keep, read_first, save_where}
use opendif_core.Portal.SchemaRecords.{
  CreateSchemaRequest, CreateSchemaSubmissionRequest, SchemaSubmission, SchemaSubmissionReplies,
  SchemaSubmissionResponse, SchemaWorld, UpdateSchemaSubmissionRequest, is_submission,
}
use opendif_core.Portal.Schemas.{create_schema}
use opendif_core.Portal.SubmissionRecords.{submission_approved, submission_pending}

module _ (format : ℕ → String) where
  abbrev pub schema_submission_response : SchemaSubmission → SchemaSubmissionResponse
  schema_submission_response s = record {
    submission_id = s.submission_id;
    previous_schema_id = s.previous_schema_id;
    schema_name = s.schema_name;
    schema_description = s.schema_description;
    sdl = s.sdl;
    schema_endpoint = s.schema_endpoint;
    status = s.status;
    member_id = s.member_id;
    created_at = format s.created_at;
    updated_at = format s.updated_at;
    review = s.review;
  }

  -- is the schema there that a request names as the previous one?
  unfoldable pub check_previous_schema :
      Option String → Option String → SchemaWorld → Result String Unit
  check_previous_schema read_error none w = ok tt
  check_previous_schema read_error (some id) w =
      elim (read_first read_error (λ s. s.schema_id == id) w.schemas) [
        | err e ↦ err (concat "previous schema not found: " e)
        | ok s ↦ ok tt
      ]

  abbrev pub new_submission : String → ℕ → CreateSchemaSubmissionRequest → SchemaSubmission
  new_submission new_id now req = record {
    submission_id = concat "sub_" new_id;
    previous_schema_id = req.previous_schema_id;
    schema_name = req.schema_name;
    schema_description = req.schema_description;
    sdl = req.sdl;
    schema_endpoint = req.schema_endpoint;
    status = submission_pending;
    member_id = req.member_id;
    review = none;
    created_at = now;
    updated_at = now;
  }

  -- CreateSchemaSubmission
  unfoldable pub create_schema_submission :
      (read_member read_previous create_error : Option String)
      → String
      → ℕ
      → CreateSchemaSubmissionRequest
      → (member_ids : List String) → SchemaWorld
      → Result String SchemaSubmissionResponse × SchemaWorld
  create_schema_submission read_member read_previous create_error new_id now req members w =
      elim (read_first read_member (λ m. m == req.member_id) members) [
        | err e ↦ (err (concat "member not found: " e), w)
        | ok m ↦ elim (check_previous_schema read_previous req.previous_schema_id w) [
          | err e ↦ (err e, w)
          | ok u ↦ elim create_error [
            | some e ↦ (err (concat "failed to create schema submission: " e), w)
            | none ↦ (
              ok (schema_submission_response (new_submission new_id now req)),
              record {
                schemas = w.schemas;
                submissions = new_submission new_id now req ∷ w.submissions;
                metadata = w.metadata;
              },
            )
          ]
        ]
      ]

  abbrev pub edited_submission :
      ℕ → UpdateSchemaSubmissionRequest → SchemaSubmission → SchemaSubmission
  edited_submission now req s = record {
    submission_id = s.submission_id;
    previous_schema_id = or_keep req.previous_schema_id s.previous_schema_id;
    schema_name = or_else req.schema_name s.schema_name;
    schema_description = or_keep req.schema_description s.schema_description;
    sdl = or_else req.sdl s.sdl;
    schema_endpoint = or_else req.schema_endpoint s.schema_endpoint;
    status = or_else req.status s.status;
    member_id = s.member_id;
    review = or_keep req.review s.review;
    created_at = s.created_at;
    updated_at = now;
  }

  abbrev pub reopened_submission : ℕ → SchemaSubmission → SchemaSubmission
  reopened_submission now s = record {
    submission_id = s.submission_id;
    previous_schema_id = s.previous_schema_id;
    schema_name = s.schema_name;
    schema_description = s.schema_description;
    sdl = s.sdl;
    schema_endpoint = s.schema_endpoint;
    status = submission_pending;
    member_id = s.member_id;
    review = s.review;
    created_at = s.created_at;
    updated_at = now;
  }

  abbrev pub schema_request_of : SchemaSubmission → CreateSchemaRequest
  schema_request_of s = record {
    schema_name = s.schema_name;
    schema_description = s.schema_description;
    sdl = s.sdl;
    endpoint = s.schema_endpoint;
    member_id = s.member_id;
  }

  abbrev pub store_submission : SchemaSubmission → SchemaWorld → SchemaWorld
  store_submission s w = record {
    schemas = w.schemas;
    submissions = save_where (is_submission s.submission_id) s w.submissions;
    metadata = w.metadata;
  }

  abbrev pub approves_schema : UpdateSchemaSubmissionRequest → Bool
  approves_schema req = opt_eq req.status (some submission_approved)

  module _ (r : SchemaSubmissionReplies) (new_id : String) (saved_at created_at pending_at : ℕ)
      (req : UpdateSchemaSubmissionRequest) where
    -- from the creation of the schema on, of a saved row
    unfoldable pub approve_schema :
        SchemaSubmission → SchemaWorld → Result String SchemaSubmissionResponse × SchemaWorld
    approve_schema s w =
        let (created, after) =
          create_schema format r.create new_id created_at (schema_request_of s) w in
        elim created [
          | ok a ↦ (ok (schema_submission_response s), after)
          | err e ↦ elim r.save_pending [
            | some d ↦ (
              err (
                  concat "failed to create schema from approved submission: "
                    (concat e (concat ", and failed to compensate submission status: " d))),
              after,
            )
            | none ↦ (
              err (concat "failed to create schema from approved submission: " e),
              store_submission (reopened_submission pending_at s) after,
            )
          ]
        ]

    -- from the save on
    unfoldable pub change_schema_submission :
        SchemaSubmission → SchemaWorld → Result String SchemaSubmissionResponse × SchemaWorld
    change_schema_submission s w = elim r.save_submission [
      | some e ↦ (err (concat "failed to update schema submission: " e), w)
      | none ↦ elim (approves_schema req) [
        | true ↦ approve_schema s (store_submission s w)
        | false ↦ (ok (schema_submission_response s), store_submission s w)
      ]
    ]

    -- UpdateSchemaSubmission
    unfoldable pub update_schema_submission :
        String → SchemaWorld → Result String SchemaSubmissionResponse × SchemaWorld
    update_schema_submission id w =
        elim (read_first r.read_submission (is_submission id) w.submissions) [
          | err e ↦ (err (concat "schema submission not found: " e), w)
          | ok s ↦ elim (check_previous_schema r.read_previous req.previous_schema_id w) [
            | err e ↦ (err e, w)
            | ok u ↦ elim (opt_eq req.sdl (some "")) [
              | true ↦ (err "SDL field cannot be empty", w)
              | false ↦ change_schema_submission (edited_submission saved_at req s) w
            ]
          ]
        ]

  -- GetSchemaSubmission
  unfoldable pub get_schema_submission :
      Option String → String → SchemaWorld → Result String SchemaSubmissionResponse
  get_schema_submission read_error id w =
      elim (read_first read_error (is_submission id) w.submissions) [
        | err e ↦ err (concat "schema submission not found: " e)
        | ok s ↦ ok (schema_submission_response s)
      ]

  -- GetSchemaSubmissions; `newest_first` is ORDER BY created_at DESC
  unfoldable pub get_schema_submissions :
      Option String
      → (List SchemaSubmission → List SchemaSubmission)
      → Option String
      → Option (List String)
      → SchemaWorld
      → Result String (List SchemaSubmissionResponse)
  get_schema_submissions (some e) newest_first member_id statuses w =
      err (concat "failed to retrieve schema submissions: " e)
  get_schema_submissions none newest_first member_id statuses w =
      let of_member =
        if is_blank member_id
        then w.submissions
        else all_where (λ s. opt_eq (some s.member_id) member_id) w.submissions in
      let chosen_rows : List SchemaSubmission = elim statuses [
        | none ↦ of_member
        | some wanted ↦
            if is_empty wanted then of_member else all_where (λ s. elem s.status wanted) of_member
      ] in
      ok (map schema_submission_response (newest_first chosen_rows))
