-- ===== src/Portal/ApplicationReads.antt =====
-- UpdateApplication and the reads of applications: portal-backend/v1/services/application_service.go.
use Prim.Native.String.{◌++◌ as concat}
use opendif_core.Base.{
  List, Option, Result, String, err, if◌then◌else◌, map, none, ok, opt_eq, some, ℕ, ◌==◌,
}
use opendif_core.Portal.ApplicationRecords.{
  Application, ApplicationResponse, UpdateApplicationRequest,
}
use opendif_core.Portal.Applications.{application_response, listed_response}
use opendif_core.Portal.Rows.{
  all_where, first_where, is_blank, or_else, or_keep, read_first, save_where,
}

module _ (format : ℕ → String) where
  abbrev pub updated_application : ℕ → UpdateApplicationRequest → Application → Application
  updated_application now req a = record {
    application_id = a.application_id;
    application_name = or_else req.application_name a.application_name;
    application_description = or_keep req.application_description a.application_description;
    selected_fields = a.selected_fields;
    member_id = a.member_id;
    version = or_else req.version a.version;
    idp_application_id = a.idp_application_id;
    idp_client_id = a.idp_client_id;
    created_at = a.created_at;
    updated_at = now;
  }

  -- UpdateApplication
  unfoldable pub update_application :
      (read_error save_error : Option String)
      → ℕ
      → String
      → UpdateApplicationRequest
      → List Application
      → Result String ApplicationResponse × List Application
  update_application read_error save_error now id req rows =
      elim (read_first read_error (λ a. a.application_id == id) rows) [
        | err e ↦ (err e, rows)
        | ok a ↦ elim save_error [
          | some e ↦ (err e, rows)
          | none ↦
              let a' = updated_application now req a in
              (
                ok (application_response format a'),
                save_where (λ b. b.application_id == id) a' rows,
              )
        ]
      ]

  -- GetApplication
  unfoldable pub get_application :
      Option String → String → List Application → Result String ApplicationResponse
  get_application read_error id rows =
      elim (read_first read_error (λ a. a.application_id == id) rows) [
        | err e ↦ err e
        | ok a ↦ ok (application_response format a)
      ]

  -- GetApplications; `newest_first` is ORDER BY created_at DESC
  unfoldable pub get_applications :
      Option String
      → (List Application → List Application)
      → Option String
      → List Application
      → Result String (List ApplicationResponse)
  get_applications (some e) newest_first member_id rows = err e
  get_applications none newest_first member_id rows = ok (
      map (listed_response format) (
        newest_first (
          if is_blank member_id
          then rows
          else all_where (λ a. opt_eq (some a.member_id) member_id) rows)))

-- GetApplicationIdByIdpClientId; `by_key` is ORDER BY application_id
unfoldable pub get_application_id :
    Option String
    → (List Application → List Application)
    → String
    → List Application
    → Result String String
get_application_id (some e) by_key idp_client_id rows =
    err (concat "failed to retrieve application: " e)
get_application_id none by_key idp_client_id rows =
    elim (first_where (λ a. opt_eq a.idp_client_id (some idp_client_id)) (by_key rows)) [
      | none ↦ err (concat "application not found for idpClientId: " idp_client_id)
      | some a ↦ ok a.application_id
    ]
