-- ===== src/Portal/Joined.antt =====
-- What CreateMember and UpdateMember leave where they fail.
use opendif_core.Base.{
  Bool-cases, Option, Option-cases, Result, String, eq_iff, eq_refl, err, if◌then◌else◌, inl, inr,
  none, ok, refl, some, sym, true, ℕ, ◌==◌, ◌∙◌, ◌∷◌, ◌≡◌,
}
use opendif_core.Portal.MemberRecords.{
  CreateMemberRequest, MemberReplies, MemberResponse, MemberRow, MemberWorld, UpdateMemberRequest,
}
use opendif_core.Portal.MemberUpdates.{
  needs_idp_update, save_member, update_member, updated_member, user_of, write_user,
}
use opendif_core.Portal.Members.{
  create_member, drop_user, insert_member, is_membership, join_group, new_member, new_user,
  undo_membership, undo_user,
}
use opendif_core.Portal.Rows.{
  drop_where-first, first_where, or_else, read_first, read_first_ok, save_where,
  save_where-save_where,
}

module _ (format : ℕ → String) (r : MemberReplies) (new_id : String) (now : ℕ)
    (req : CreateMemberRequest) (w : MemberWorld) where
  -- Everything is as it was after an error; after a success there is the row, and a user with its
  -- email who is in a group.
  abbrev pub IsJoined : Result String MemberResponse × MemberWorld → Type 0
  IsJoined (err e, after) = after ≡ w
  IsJoined (ok m, after) =
      (user : String × String) × (group_id : String) × (r.create_user ≡ ok user)
      × (r.add_to_group ≡ ok group_id)
      × (m.email ≡ user.1)
      × (after.members ≡ new_member format r new_id now req user.0 ∷ w.members)
      × (after.users ≡ new_user format r new_id now req user.0 user.1 ∷ w.users)
      × (after.memberships ≡ record { group_id = group_id; user_id = user.0 } ∷ w.memberships)

  -- Where the calls that undo its steps succeed and the identity provider makes a new user,
  -- CreateMember either succeeds, with the row, the user of the same email and its membership of the
  -- group all in place, or fails and leaves everything as it was.
  pub create_member-IsJoined :
      r.delete_user ≡ none
      → r.remove_from_group ≡ none
      → ((user : String × String)
          → r.create_user ≡ ok user
          → first_where (λ u. u.id == user.0) w.users ≡ none)
      → ((user : String × String) (group_id : String)
          → r.create_user ≡ ok user
          → first_where (is_membership group_id user.0) w.memberships ≡ none)
      → IsJoined (create_member format r new_id now req w)
  unfolding create_member join_group insert_member undo_user undo_membership
  create_member-IsJoined no_delete no_remove new_one not_in = split r.create_user refl
    where
      split :
          (v : Result String (String × String))
          → r.create_user ≡ v
          → IsJoined (create_member format r new_id now req w)
      split (err e) h = rw (h, create_member) refl
      split (ok user) h = elim (Bool-cases (user.1 == req.email)) [
        | inr other ↦ rw (h, other, no_delete, user_again, create_member) refl
        | inl same ↦ grouped r.add_to_group refl same
      ]
        where
          user_again :
              drop_user user.0 (new_user format r new_id now req user.0 user.1 ∷ w.users) ≡ w.users
          user_again =
              drop_where-first (λ u. u.id == user.0)
                (new_user format r new_id now req user.0 user.1) w.users (eq_refl user.0)
                (new_one user h)

          grouped :
              (v : Result String String)
              → r.add_to_group ≡ v
              → (user.1 == req.email) ≡ true
              → IsJoined (create_member format r new_id now req w)
          grouped (err e) g same = rw (h, same, g, no_delete, user_again, create_member) refl
          grouped (ok group_id) g same =
              let member_again =
                drop_where-first (is_membership group_id user.0)
                  (record { group_id = group_id; user_id = user.0 }) w.memberships
                  (rw (eq_refl group_id, eq_refl user.0) refl) (not_in user group_id h) in
              elim (Option-cases r.db_create) [
                | inl made ↦
                    rw (h, same, g, made, create_member)
                      (user, group_id, refl, refl, sym ((eq_iff _ _).0 same), refl, refl, refl)
                | inr (e, refused_row) ↦
                    rw (h, same, g, refused_row, no_delete, no_remove, create_member)
                      (rw (user_again, member_again) refl)
              ]

module _ (format : ℕ → String) (read_error update_user save_error rollback_user : Option String)
    (now : ℕ) (req : UpdateMemberRequest) (w : MemberWorld) where
  -- the row with what the request changes, at the time of the save
  abbrev renewed : MemberRow → MemberRow
  renewed m = record m {
    name = or_else req.name m.name;
    phone_number = or_else req.phone_number m.phone_number;
    updated_at = now;
  }

  -- Everything is as it was after an error; after a success the row is changed, and so is the user
  -- where the request names one of its fields.
  abbrev pub IsRestored : String → Result String MemberResponse × MemberWorld → Type 0
  IsRestored id (err e, after) = after ≡ w
  IsRestored id (ok m, after) =
      (old : MemberRow) × (first_where (λ m. m.member_id == id) w.members ≡ some old)
      × (after.members ≡ save_where (λ m. m.member_id == old.member_id) (renewed old) w.members)
      × (after.users ≡ (
          if needs_idp_update format req
          then write_user format (user_of format (renewed old)) w.users
          else w.users))

  -- Where the identity provider's users are those of the rows, and takes back what it has written,
  -- UpdateMember either succeeds, with the row and the user both changed, or fails and leaves
  -- everything as it was.
  pub update_member-IsRestored :
      (id : String)
      → rollback_user ≡ none
      → ((old : MemberRow)
          → first_where (λ m. m.member_id == id) w.members ≡ some old
          → write_user format (user_of format old) w.users ≡ w.users)
      → IsRestored id
          (update_member format read_error update_user save_error rollback_user now req id w)
  unfolding update_member save_member
  update_member-IsRestored id taken_back in_step =
      split (read_first read_error (λ m. m.member_id == id) w.members) refl
    where
      split :
          (v : Result String MemberRow)
          → read_first read_error (λ m. m.member_id == id) w.members ≡ v
          → IsRestored id
              (update_member format read_error update_user save_error rollback_user now req id w)
      split (err e) h = rw (h, update_member) refl
      split (ok old) h =
          let there = read_first_ok read_error (λ m. m.member_id == id) w.members h in
          let new = updated_member format now req old in
          let users_again =
            save_where-save_where (λ u. u.id == old.idp_user_id) (user_of format new)
              (user_of format old) w.users (eq_refl old.idp_user_id)
            ∙ in_step old there in
          elim (Bool-cases (needs_idp_update format req)) [
            | inr no_update ↦ elim (Option-cases save_error) [
              | inl done_it ↦
                  rw (h, no_update, done_it, update_member) (old, there, refl, rw no_update refl)
              | inr (e, refused_row) ↦
                  rw (h, no_update, refused_row, update_member, save_member) (rw no_update refl)
            ]
            | inl update ↦ elim (Option-cases update_user) [
              | inr (e, refused_user) ↦ rw (h, update, refused_user, update_member) refl
              | inl written ↦ elim (Option-cases save_error) [
                | inl done_it ↦
                    rw (h, update, written, done_it, update_member)
                      (old, there, refl, rw update refl)
                | inr (e, refused_row) ↦
                    rw (h, update, written, refused_row, update_member, save_member)
                      (rw (update, taken_back) (rw users_again refl))
              ]
            ]
          ]
