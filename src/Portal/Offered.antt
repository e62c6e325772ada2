-- ===== src/Portal/Offered.antt =====
-- What UpdateSchemaSubmission does to the schemas and to the policy decision point.
use Prim.Native.String.{◌++◌ as concat}
use opendif_core.Base.{
  Bool, Bool-cases, Option, Option-cases, Result, String, ap, arith, eq_refl, err, false, inl, inr,
  none, ok, opt_eq, opt_eq_iff, refl, some, subst, sym, true, ℕ, ◌==◌, ◌∙◌, ◌∷◌, ◌≡◌, ◌≢◌, ◌⊎◌,
}
use opendif_core.Portal.Rows.{
  drop_where-first, first_where, or_else, or_keep, read_first, read_first_ok, save_where,
  save_where-save_where,
}
use opendif_core.Portal.SchemaRecords.{
  CreateSchemaRequest, SchemaReplies, SchemaResponse, SchemaRow, SchemaSubmission,
  SchemaSubmissionReplies, SchemaSubmissionResponse, SchemaWorld, UpdateSchemaSubmissionRequest,
  is_submission,
}
use opendif_core.Portal.SchemaSubmissions.{
  approve_schema, approves_schema, change_schema_submission, check_previous_schema,
  reopened_submission, schema_request_of, schema_submission_response, store_submission,
  update_schema_submission,
}
use opendif_core.Portal.Schemas.{create_schema, new_schema}

opt_ne : (o : Option String) → opt_eq o (some "") ≡ false → o ≢ some ""
opt_ne o h e = ground (arith, h, (opt_eq_iff o (some "")).1 e)

module _ (format : ℕ → String) (r : SchemaReplies) (new_id : String) (now : ℕ)
    (req : CreateSchemaRequest) (w : SchemaWorld) where
  -- the world with the schema and its metadata
  abbrev pub with_schema : SchemaWorld
  with_schema =
      let s = new_schema format r new_id now req in
      record {
        schemas = s ∷ w.schemas;
        submissions = w.submissions;
        metadata = (s.schema_id, s.sdl) ∷ w.metadata;
      }

  abbrev pub IsStored : Result String SchemaResponse × SchemaWorld → Type 0
  IsStored (ok a, after) = after ≡ with_schema
  IsStored (err e, after) = after ≡ w

  create_schema-IsStored :
      r.db_delete ≡ none
      → first_where (λ s. s.schema_id == concat "sch_" new_id) w.schemas ≡ none
      → IsStored (create_schema format r new_id now req w)
  unfolding create_schema
  create_schema-IsStored no_delete new_row =
      let row_again =
        drop_where-first (λ t. t.schema_id == concat "sch_" new_id)
          (new_schema format r new_id now req) w.schemas (eq_refl (concat "sch_" new_id)) new_row in
      elim (Option-cases r.db_create) [
        | inr (e, refused_row) ↦ rw (refused_row, create_schema) refl
        | inl made ↦ elim (Option-cases r.create_metadata) [
          | inr (e, refused_metadata) ↦
              rw (made, refused_metadata, no_delete, create_schema) (rw row_again refl)
          | inl taken ↦ rw (made, taken, create_schema) refl
        ]
      ]

module _ (format : ℕ → String) (r : SchemaSubmissionReplies) (new_id : String)
    (saved_at created_at pending_at : ℕ) (req : UpdateSchemaSubmissionRequest)
    (w : SchemaWorld) where
  -- the row with what the request changes, at the time of the save
  abbrev edited : SchemaSubmission → SchemaSubmission
  edited s = record s {
    previous_schema_id = or_keep req.previous_schema_id s.previous_schema_id;
    schema_name = or_else req.schema_name s.schema_name;
    schema_description = or_keep req.schema_description s.schema_description;
    sdl = or_else req.sdl s.sdl;
    schema_endpoint = or_else req.schema_endpoint s.schema_endpoint;
    status = or_else req.status s.status;
    review = or_keep req.review s.review;
    updated_at = saved_at;
  }

  -- the schema that an approval of the submission makes
  abbrev pub offered : SchemaSubmission → SchemaRow
  offered s = new_schema format r.create new_id created_at (schema_request_of format (edited s))

  -- An approval has made a schema of the submission, whose metadata the policy decision point has.
  abbrev pub IsOffered : Bool → SchemaSubmission → SchemaWorld → Type 0
  IsOffered true s after =
      (after.schemas ≡ offered s ∷ w.schemas)
      × (after.metadata ≡ ((offered s).schema_id, (offered s).sdl) ∷ w.metadata)
  IsOffered false s after = (after.schemas ≡ w.schemas) × (after.metadata ≡ w.metadata)

  abbrev pub IsEdited : String → Result String SchemaSubmissionResponse × SchemaWorld → Type 0
  IsEdited id (ok resp, after) =
      (s : SchemaSubmission) × (first_where (is_submission id) w.submissions ≡ some s)
      × (req.sdl ≢ some "")
      × (resp ≡ schema_submission_response format (edited s))
      × (after.submissions ≡ save_where (is_submission s.submission_id) (edited s) w.submissions)
      × IsOffered (approves_schema format req) s after
  IsEdited id (err e, after) =
      (after.schemas ≡ w.schemas)
      × (after.metadata ≡ w.metadata)
      × ((after.submissions ≡ w.submissions)
          ⊎ ((s : SchemaSubmission) × (first_where (is_submission id) w.submissions ≡ some s)
              × (approves_schema format req ≡ true)
              × (after.submissions
                  ≡ save_where (is_submission s.submission_id)
                      (record (edited s) { status = "pending"; updated_at = pending_at })
                      w.submissions)))

  module _ (no_delete : r.create.db_delete ≡ none)
      (new_row : first_where (λ s. s.schema_id == concat "sch_" new_id) w.schemas ≡ none)
      (no_pending : r.save_pending ≡ none) where
    approve_schema-IsEdited :
        (id : String) (s : SchemaSubmission)
        → first_where (is_submission id) w.submissions ≡ some s
        → req.sdl ≢ some ""
        → approves_schema format req ≡ true
        → IsEdited id (
            approve_schema format r new_id saved_at created_at pending_at req
              (edited s)
              (store_submission format (edited s) w))
    unfolding approve_schema
    approve_schema-IsEdited id s there has_sdl yes_it_does =
        split
          (create_schema format r.create new_id created_at (schema_request_of format (edited s))
            (store_submission format (edited s) w))
          refl
          (create_schema-IsStored format r.create new_id created_at
            (schema_request_of format (edited s)) (store_submission format (edited s) w) no_delete
            new_row)
      where
        split :
            (v : Result String SchemaResponse × SchemaWorld)
            → create_schema format r.create new_id created_at
                (schema_request_of format (edited s))
                (store_submission format (edited s) w)
              ≡ v
            → IsStored format r.create new_id created_at
                (schema_request_of format (edited s))
                (store_submission format (edited s) w)
                v
            → IsEdited id (
                approve_schema format r new_id saved_at created_at pending_at req
                  (edited s)
                  (store_submission format (edited s) w))
        split (ok a, after) h e =
            let left_world = ap (λ p. p.1) h ∙ e in
            rw (h, approve_schema)
              (
                s,
                there,
                has_sdl,
                refl,
                ap (λ x. x.submissions) left_world,
                rw yes_it_does (ap (λ x. x.schemas) left_world, ap (λ x. x.metadata) left_world),
              )
        split (err m, after) h e =
            let left_world = ap (λ p. p.1) h ∙ e in
            let saved_again =
              save_where-save_where (is_submission s.submission_id) (edited s)
                (reopened_submission format pending_at (edited s)) w.submissions
                (eq_refl s.submission_id) in
            rw (h, no_pending, approve_schema)
              (
                ap (λ x. x.schemas) left_world,
                ap (λ x. x.metadata) left_world,
                inr (
                  s,
                  there,
                  yes_it_does,
                  ap
                        (λ x.
                          (store_submission format
                            (reopened_submission format pending_at (edited s)) x).submissions)
                        left_world
                      ∙ saved_again,
                ),
              )

    change_schema_submission-IsEdited :
        (id : String) (s : SchemaSubmission)
        → first_where (is_submission id) w.submissions ≡ some s
        → req.sdl ≢ some ""
        → IsEdited id (
            change_schema_submission format r new_id saved_at created_at pending_at req
              (edited s)
              w)
    unfolding change_schema_submission
    change_schema_submission-IsEdited id s there has_sdl = elim (Option-cases r.save_submission) [
      | inr (e, refused_save) ↦ rw (refused_save, change_schema_submission) (refl, refl, inl refl)
      | inl saved_it ↦ elim (Bool-cases (approves_schema format req)) [
        | inl yes_it_does ↦
            rw (saved_it, yes_it_does, change_schema_submission)
              (approve_schema-IsEdited id s there has_sdl yes_it_does)
        | inr no_it_does_not ↦
            rw (saved_it, no_it_does_not, change_schema_submission)
              (
                s,
                there,
                has_sdl,
                refl,
                refl,
                subst (λ b. IsOffered b s (store_submission format (edited s) w))
                    (sym no_it_does_not) (refl, refl),
              )
      ]
    ]

    -- Where the calls that undo its steps succeed and the new id is not in use,
    -- UpdateSchemaSubmission either succeeds, with the changed row, whose SDL is not made empty, and
    -- just where the request approves with one more schema, that of the row, and its metadata at the
    -- policy decision point; or it fails with no more schemas or metadata than before, and the row
    -- is as it was, or changed and pending where the request approves.
    pub update_schema_submission-IsEdited :
        (id : String)
        → IsEdited id
            (update_schema_submission format r new_id saved_at created_at pending_at req id w)
    unfolding update_schema_submission
    update_schema_submission-IsEdited id =
        split (read_first r.read_submission (is_submission id) w.submissions) refl
          (check_previous_schema format r.read_previous req.previous_schema_id w) refl
      where
        split :
            (v : Result String SchemaSubmission)
            → read_first r.read_submission (is_submission id) w.submissions ≡ v
            → (u : Result String Unit)
            → check_previous_schema format r.read_previous req.previous_schema_id w ≡ u
            → IsEdited id
                (update_schema_submission format r new_id saved_at created_at pending_at req id w)
        split (err e) h u k = rw (h, update_schema_submission) (refl, refl, inl refl)
        split (ok s) h (err e) k = rw (h, k, update_schema_submission) (refl, refl, inl refl)
        split (ok s) h (ok u) k = elim (Bool-cases (opt_eq req.sdl (some ""))) [
          | inl empty ↦ rw (h, k, empty, update_schema_submission) (refl, refl, inl refl)
          | inr has_sdl ↦
              rw (h, k, has_sdl, update_schema_submission)
                (change_schema_submission-IsEdited id s
                  (read_first_ok r.read_submission (is_submission id) w.submissions h)
                  (opt_ne req.sdl has_sdl))
        ]
