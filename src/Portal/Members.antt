-- ===== src/Portal/Members.antt =====
-- CreateMember: portal-backend/v1/services/member_service.go. What the identity provider and the
-- database reply is a record of the call's replies, `none` where a call succeeds.
use Prim.Native.String.{◌++◌ as concat}
use opendif_core.Base.{
  Bool, List, Result, String, err, false, none, ok, some, true, ℕ, ◌&&◌, ◌==◌, ◌∷◌,
}
use opendif_core.Portal.MemberRecords.{
  CreateMemberRequest, IdpUser, MemberReplies, MemberResponse, MemberRow, MemberWorld, Membership,
}
use opendif_core.Portal.Rows.{drop_where}

abbrev pub drop_user : String → List IdpUser → List IdpUser
drop_user id users = drop_where (λ u. u.id == id) users

abbrev pub is_membership : (group_id user_id : String) → Membership → Bool
is_membership group_id user_id m = m.group_id == group_id && m.user_id == user_id

module _ (format : ℕ → String) where
  -- buildMemberResponse
  abbrev pub build_member_response : MemberRow → MemberResponse
  build_member_response m = record {
    member_id = m.member_id;
    name = m.name;
    email = m.email;
    phone_number = m.phone_number;
    created_at = format m.created_at;
    updated_at = format m.updated_at;
    idp_user_id = m.idp_user_id;
  }

  module _ (r : MemberReplies) (new_id : String) (now : ℕ) (req : CreateMemberRequest) where
    abbrev pub new_user : (id email : String) → IdpUser
    new_user id email = record {
      id = id;
      email = email;
      first_name = req.name;
      phone_number = req.phone_number;
    }

    abbrev pub new_member : String → MemberRow
    new_member user_id = record {
      member_id = concat "mem_" new_id;
      name = req.name;
      email = req.email;
      phone_number = req.phone_number;
      idp_user_id = user_id;
      created_at = now;
      updated_at = now;
    }

    -- the user deleted, where the deletion succeeds
    unfoldable pub undo_user : String → MemberWorld → MemberWorld
    undo_user user_id w = record {
      members = w.members;
      users = elim r.delete_user [ none ↦ drop_user user_id w.users | some e ↦ w.users ];
      memberships = w.memberships;
    }

    -- the user taken out of the group, where the removal succeeds
    unfoldable pub undo_membership : (group_id user_id : String) → MemberWorld → MemberWorld
    undo_membership group_id user_id w = record {
      members = w.members;
      users = w.users;
      memberships = elim r.remove_from_group [
        | none ↦ drop_where (is_membership group_id user_id) w.memberships
        | some e ↦ w.memberships
      ];
    }

    -- the error of the failed insertion, with those of the failed rollbacks on lines of their own
    abbrev pub insert_error : String → String
    insert_error e =
        let what = concat "failed to create member in database: " e in
        elim r.remove_from_group [
          | none ↦ elim r.delete_user [
            | none ↦ what
            | some d ↦ concat what (concat ", rollback errors: rollback user deletion: " d)
          ]
          | some g ↦
              concat (concat what (concat ", rollback errors: rollback group removal: " g))
                (elim r.delete_user [ none ↦ "" | some d ↦ concat "\nrollback user deletion: " d ])
        ]

    -- from the row on
    unfoldable pub insert_member :
        (group_id user_id : String) → MemberWorld → Result String MemberResponse × MemberWorld
    insert_member group_id user_id w = elim r.db_create [
      | none ↦ (
        ok (build_member_response (new_member user_id)),
        record {
          members = new_member user_id ∷ w.members;
          users = w.users;
          memberships = w.memberships;
        },
      )
      | some e ↦ (err (insert_error e), undo_user user_id (undo_membership group_id user_id w))
    ]

    -- from the group on
    unfoldable pub join_group :
        (user_id email : String) → MemberWorld → Result String MemberResponse × MemberWorld
    join_group user_id email w = elim r.add_to_group [
      | err e ↦ (
        err (
            concat (concat "failed to add user to group OpenDIF_Members: " e) (elim r.delete_user [
              | none ↦ ""
              | some d ↦ concat " (rollback also failed: " (concat d ")")
            ])),
        undo_user user_id w,
      )
      | ok group_id ↦ insert_member group_id user_id (record {
        members = w.members;
        users = w.users;
        memberships = record { group_id = group_id; user_id = user_id } ∷ w.memberships;
      })
    ]

    -- CreateMember
    unfoldable pub create_member : MemberWorld → Result String MemberResponse × MemberWorld
    create_member w = elim r.create_user [
      | err e ↦ (err (concat "failed to create user in IDP: " e), w)
      | ok user ↦
          let made : MemberWorld = record {
            members = w.members;
            users = new_user user.0 user.1 ∷ w.users;
            memberships = w.memberships;
          } in
          elim (user.1 == req.email) [
            | true ↦ join_group user.0 user.1 made
            | false ↦ (
              err (elim r.delete_user [
                | none ↦
                    concat "IDP user email mismatch: expected "
                      (concat req.email (concat ", got " user.1))
                | some e ↦
                    concat "IDP user email mismatch, and failed to rollback user creation in IDP: "
                      e
              ]),
              undo_user user.0 made,
            )
          ]
    ]
