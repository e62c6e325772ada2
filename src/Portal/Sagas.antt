-- ===== src/Portal/Sagas.antt =====
-- What CreateApplication leaves where it fails.
use opendif_core.Base.{
  Option-cases, Result, String, eq_refl, err, inl, inr, none, ok, refl, ℕ, ◌==◌, ◌∷◌, ◌≡◌, ◌⊎◌,
}
use opendif_core.Portal.ApplicationRecords.{
  AppWorld, ApplicationResponse, CreateApplicationRequest, CreateReplies,
}
use opendif_core.Portal.Applications.{
  allow_application, allow_request, application_response, create_application, insert_application,
  new_application, undo_application,
}
use opendif_core.Portal.Rows.{drop_where-first, first_where}

module _ (format : ℕ → String) {Submission : Type 0} (r : CreateReplies) (new_id : String) (now : ℕ)
    (req : CreateApplicationRequest) (w : AppWorld Submission) where
  -- the world with one more application, its row and its allow list
  abbrev pub with_application : (idp_id client_id : String) → AppWorld Submission
  with_application idp_id client_id = record {
    applications = new_application format r new_id now req idp_id client_id ∷ w.applications;
    submissions = w.submissions;
    idp_applications = idp_id ∷ w.idp_applications;
    allow_lists = allow_request format r new_id now req client_id ∷ w.allow_lists;
  }

  -- the world with one more application at the identity provider alone
  abbrev pub with_orphan : String → AppWorld Submission
  with_orphan idp_id = record {
    applications = w.applications;
    submissions = w.submissions;
    idp_applications = idp_id ∷ w.idp_applications;
    allow_lists = w.allow_lists;
  }

  -- All or nothing, but for an application that the identity provider has created and whose client
  -- id it then does not tell.
  abbrev pub IsAtomic : Result String ApplicationResponse × AppWorld Submission → Type 0
  IsAtomic (ok a, after) =
      (i : String) × (c : String) × (r.idp_create ≡ ok i)
      × (r.idp_oidc ≡ ok c)
      × (a ≡ application_response format (new_application format r new_id now req i c))
      × (after ≡ with_application i c)
  IsAtomic (err e, after) =
      (after ≡ w)
      ⊎ ((i : String) × (d : String) × (r.idp_create ≡ ok i)
          × (r.idp_oidc ≡ err d)
          × (after ≡ with_orphan i))

  -- Where the deletions that undo its steps succeed and the new ids are not in use, CreateApplication
  -- either succeeds, with the row, the application at the identity provider and the allow list all
  -- in place, or fails and leaves everything as it was, except that an application whose client id
  -- the identity provider does not tell stays there.
  pub create_application-IsAtomic :
      r.db_delete ≡ none
      → r.idp_delete ≡ none
      → first_where (λ a. a.application_id == new_id) w.applications ≡ none
      → ((i : String) → r.idp_create ≡ ok i → first_where (λ j. j == i) w.idp_applications ≡ none)
      → IsAtomic (create_application format r new_id now req w)
  unfolding create_application insert_application allow_application undo_application
  create_application-IsAtomic no_db no_idp new_row new_app = split r.idp_create refl
    where
      split :
          (v : Result String String)
          → r.idp_create ≡ v
          → IsAtomic (create_application format r new_id now req w)
      split (err e) h = rw (h, create_application) (inl refl)
      split (ok i) h = told r.idp_oidc refl
        where
          told :
              (v : Result String String)
              → r.idp_oidc ≡ v
              → IsAtomic (create_application format r new_id now req w)
          told (err d) o = rw (h, o, create_application) (inr (i, d, refl, refl, refl))
          told (ok c) o =
              let idp_again =
                drop_where-first (λ j. j == i) i w.idp_applications (eq_refl i) (new_app i h) in
              let row_again =
                drop_where-first (λ a. a.application_id == new_id)
                  (new_application format r new_id now req i c) w.applications (eq_refl new_id)
                  new_row in
              elim (Option-cases r.db_create) [
                | inr (e, failed_row) ↦
                    rw (h, o, failed_row, no_idp, idp_again, create_application) (inl refl)
                | inl made_row ↦ elim (Option-cases r.allow_list) [
                  | inr (e, failed_list) ↦
                      rw (h, o, made_row, failed_list, no_idp, no_db, create_application)
                        (inl (rw (row_again, idp_again) refl))
                  | inl made_list ↦
                      rw (h, o, made_row, made_list, create_application)
                        (i, c, refl, refl, refl, refl)
                ]
              ]
