-- ===== src/Portal/MemberUpdates.antt =====
-- UpdateMember and the reads of members: portal-backend/v1/services/member_service.go.
use Prim.Native.String.{◌++◌ as concat}
use opendif_core.Base.{
  Bool, List, Option, Result, String, [], err, false, if◌then◌else◌, is_nil, map, none, not, ok,
  opt_eq, some, true, ℕ, ◌&&◌, ◌==◌, ◌||◌, ◌∷◌,
}
use opendif_core.Portal.MemberRecords.{
  IdpUser, MemberResponse, MemberRow, MemberWorld, UpdateMemberRequest,
}
use opendif_core.Portal.Members.{build_member_response}
use opendif_core.Portal.Rows.{is_blank, or_else, read_first, save_where}

module _ (format : ℕ → String) where
  -- the user as UpdateMember writes it
  abbrev pub user_of : MemberRow → IdpUser
  user_of m = record {
    id = m.idp_user_id;
    email = m.email;
    first_name = m.name;
    phone_number = m.phone_number;
  }

  abbrev pub write_user : IdpUser → List IdpUser → List IdpUser
  write_user u users = save_where (λ v. v.id == u.id) u users

  abbrev pub updated_member : ℕ → UpdateMemberRequest → MemberRow → MemberRow
  updated_member now req m = record {
    member_id = m.member_id;
    name = or_else req.name m.name;
    email = m.email;
    phone_number = or_else req.phone_number m.phone_number;
    idp_user_id = m.idp_user_id;
    created_at = m.created_at;
    updated_at = now;
  }

  abbrev pub needs_idp_update : UpdateMemberRequest → Bool
  needs_idp_update req = not (is_nil req.name) || not (is_nil req.phone_number)

  module _ (read_error update_user save_error rollback_user : Option String) (now : ℕ)
      (req : UpdateMemberRequest) where
    -- from the save of the row on; `old` is the row that was read
    unfoldable pub save_member :
        (old new : MemberRow) → MemberWorld → Result String MemberResponse × MemberWorld
    save_member old new w = elim save_error [
      | none ↦ (
        ok (build_member_response format new),
        record {
          members = save_where (λ m. m.member_id == old.member_id) new w.members;
          users = w.users;
          memberships = w.memberships;
        },
      )
      | some e ↦ elim (needs_idp_update req) [
        | false ↦ (err (concat "failed to update member in database: " e), w)
        | true ↦ elim rollback_user [
          | some d ↦ (
            err (
                concat "failed to update member in database and failed to rollback IDP update: "
                  (concat e (concat "\nfailed to rollback IDP update: " d))),
            w,
          )
          | none ↦ (
            err (concat "failed to update member in database: " e),
            record {
              members = w.members;
              users = write_user (user_of old) w.users;
              memberships = w.memberships;
            },
          )
        ]
      ]
    ]

    -- UpdateMember
    unfoldable pub update_member : String → MemberWorld → Result String MemberResponse × MemberWorld
    update_member id w = elim (read_first read_error (λ m. m.member_id == id) w.members) [
      | err e ↦ (err (concat "member not found: " e), w)
      | ok old ↦
          let new = updated_member now req old in
          elim (needs_idp_update req) [
            | false ↦ save_member old new w
            | true ↦ elim update_user [
              | some e ↦ (err (concat "failed to update user in IDP: " e), w)
              | none ↦ save_member old new (record {
                members = w.members;
                users = write_user (user_of new) w.users;
                memberships = w.memberships;
              })
            ]
          ]
    ]

  -- GetMember
  unfoldable pub get_member : Option String → String → List MemberRow → Result String MemberResponse
  get_member read_error id rows = elim (read_first read_error (λ m. m.member_id == id) rows) [
    | err e ↦ err (concat "failed to fetch member: " e)
    | ok m ↦ ok (build_member_response format m)
  ]

  -- getFilteredMembers
  unfoldable pub get_filtered_members :
      Option String
      → (idp_user_id email : Option String) → List MemberRow
      → Result String (List MemberResponse)
  get_filtered_members read_error idp_user_id email rows =
      elim (read_first read_error
        (λ m.
          (is_blank idp_user_id || opt_eq (some m.idp_user_id) idp_user_id)
          && (is_blank email || opt_eq (some m.email) email))
        rows) [
          | err e ↦ err (concat "failed to fetch member: " e)
          | ok m ↦ ok (build_member_response format m ∷ [])
        ]

  -- GetAllMembers
  unfoldable pub get_all_members :
      Option String
      → (idp_user_id email : Option String) → List MemberRow
      → Result String (List MemberResponse)
  get_all_members read_error idp_user_id email rows =
      if not (is_blank idp_user_id) || not (is_blank email)
      then get_filtered_members read_error idp_user_id email rows
      else elim read_error [
        | some e ↦ err (concat "failed to fetch members: " e)
        | none ↦ ok (map (build_member_response format) rows)
      ]
