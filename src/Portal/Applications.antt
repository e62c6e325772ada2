-- ===== src/Portal/Applications.antt =====
-- CreateApplication: portal-backend/v1/services/application_service.go. What the identity provider,
-- the policy decision point and the database reply is a record of the call's replies, `none` where a
-- call succeeds; ids and times are arguments.
use Prim.Native.String.{◌++◌ as concat}
use opendif_core.Base.{Result, String, err, if◌then◌else◌, none, ok, some, ℕ, ◌==◌, ◌∷◌}
use opendif_core.Portal.ApplicationRecords.{
  AllowListRequest, AppWorld, Application, ApplicationResponse, CreateApplicationRequest,
  CreateReplies, active_version, duration_one_month,
}
use opendif_core.Portal.Rows.{drop_where, is_blank}

-- The time that a request writes, the id that it makes, and time.Format.
module _ (format : ℕ → String) where
  abbrev pub application_response : Application → ApplicationResponse
  application_response a = record {
    application_id = a.application_id;
    application_name = a.application_name;
    application_description = a.application_description;
    selected_fields = a.selected_fields;
    member_id = a.member_id;
    version = a.version;
    idp_application_id = a.idp_application_id;
    idp_client_id = a.idp_client_id;
    created_at = format a.created_at;
    updated_at = format a.updated_at;
  }

  -- the response in a list leaves an empty description out
  abbrev pub listed_response : Application → ApplicationResponse
  listed_response a = record {
    application_id = a.application_id;
    application_name = a.application_name;
    application_description =
        if is_blank a.application_description then none else a.application_description;
    selected_fields = a.selected_fields;
    member_id = a.member_id;
    version = a.version;
    idp_application_id = a.idp_application_id;
    idp_client_id = a.idp_client_id;
    created_at = format a.created_at;
    updated_at = format a.updated_at;
  }

  module _ (r : CreateReplies) (new_id : String) (now : ℕ) (req : CreateApplicationRequest) where
    abbrev pub new_application : (idp_id client_id : String) → Application
    new_application idp_id client_id = record {
      application_id = new_id;
      application_name = req.application_name;
      application_description = req.application_description;
      selected_fields = req.selected_fields;
      member_id = req.member_id;
      version = active_version;
      idp_application_id = some idp_id;
      idp_client_id = some client_id;
      created_at = now;
      updated_at = now;
    }

    abbrev pub allow_request : String → AllowListRequest
    allow_request client_id = record {
      application_id = client_id;
      records = req.selected_fields;
      grant_duration = duration_one_month;
    }

    -- the error after the deletions
    abbrev pub undo_error : String → String
    undo_error e = concat (concat "failed to update allow list: " e) (elim r.db_delete [
      | none ↦ elim r.idp_delete [
        | none ↦ ""
        | some i ↦ concat ", and failed to compensate IDP deletion: " i
      ]
      | some d ↦ elim r.idp_delete [
        | none ↦ concat ", and failed to compensate database deletion: " d
        | some i ↦
            concat ", and failed to compensate (DB error: "
              (concat d (concat ", IDP error: " (concat i ")")))
      ]
    ])

    module _ {Submission : Type 0} where
      -- what the two deletions leave, each made whatever the other gives
      unfoldable pub undo_application : String → AppWorld Submission → AppWorld Submission
      undo_application idp_id w = record {
        applications = elim r.db_delete [
          | none ↦ drop_where (λ a. a.application_id == new_id) w.applications
          | some e ↦ w.applications
        ];
        submissions = w.submissions;
        idp_applications = elim r.idp_delete [
          | none ↦ drop_where (λ i. i == idp_id) w.idp_applications
          | some e ↦ w.idp_applications
        ];
        allow_lists = w.allow_lists;
      }

      -- from the update of the allow list on
      unfoldable pub allow_application :
          (idp_id client_id : String)
          → AppWorld Submission
          → Result String ApplicationResponse × AppWorld Submission
      allow_application idp_id client_id w = elim r.allow_list [
        | some e ↦ (err (undo_error e), undo_application idp_id w)
        | none ↦ (
          ok (application_response (new_application idp_id client_id)),
          record {
            applications = w.applications;
            submissions = w.submissions;
            idp_applications = w.idp_applications;
            allow_lists = allow_request client_id ∷ w.allow_lists;
          },
        )
      ]

      -- from the row on
      unfoldable pub insert_application :
          (idp_id client_id : String)
          → AppWorld Submission
          → Result String ApplicationResponse × AppWorld Submission
      insert_application idp_id client_id w = elim r.db_create [
        | some e ↦ elim r.idp_delete [
          | none ↦ (
            err (concat "failed to create application: " e),
            record {
              applications = w.applications;
              submissions = w.submissions;
              idp_applications = drop_where (λ i. i == idp_id) w.idp_applications;
              allow_lists = w.allow_lists;
            },
          )
          | some d ↦ (
            err (
                concat "failed to create application: "
                  (concat e (concat ", and failed to compensate: " d))),
            w,
          )
        ]
        | none ↦ allow_application idp_id client_id (record {
          applications = new_application idp_id client_id ∷ w.applications;
          submissions = w.submissions;
          idp_applications = w.idp_applications;
          allow_lists = w.allow_lists;
        })
      ]

      -- CreateApplication; the client id is the address of a field, so the test against nil after
      -- the insertion never holds
      unfoldable pub create_application :
          AppWorld Submission → Result String ApplicationResponse × AppWorld Submission
      create_application w = elim r.idp_create [
        | err e ↦ (err (concat "failed to create application: " e), w)
        | ok idp_id ↦
            let made : AppWorld Submission = record {
              applications = w.applications;
              submissions = w.submissions;
              idp_applications = idp_id ∷ w.idp_applications;
              allow_lists = w.allow_lists;
            } in
            elim r.idp_oidc [
              | err e ↦ (err (concat "failed to get application OIDC: " e), made)
              | ok client_id ↦ insert_application idp_id client_id made
            ]
      ]
