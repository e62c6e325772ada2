-- ===== src/Portal/MemberRecords.antt =====
-- The structs of portal-backend/v1/models and idp that the member service reads and writes, and the
-- replies to its calls.
use opendif_core.Base.{List, Option, Result, String, ℕ}

pub record MemberRow : Type 0 where
  pub member_id : String
  pub name : String
  pub email : String
  pub phone_number : String
  pub idp_user_id : String
  pub created_at : ℕ
  pub updated_at : ℕ

pub record CreateMemberRequest : Type 0 where
  pub name : String
  pub email : String
  pub phone_number : String

pub record UpdateMemberRequest : Type 0 where
  pub name : Option String
  pub phone_number : Option String

pub record MemberResponse : Type 0 where
  pub member_id : String
  pub name : String
  pub email : String
  pub phone_number : String
  pub created_at : String
  pub updated_at : String
  pub idp_user_id : String

-- a user at the identity provider, and the groups that it is in
pub record IdpUser : Type 0 where
  pub id : String
  pub email : String
  pub first_name : String
  pub phone_number : String

pub record Membership : Type 0 where
  pub group_id : String
  pub user_id : String

pub record MemberWorld : Type 0 where
  pub members : List MemberRow
  pub users : List IdpUser
  pub memberships : List Membership

-- the replies to the calls of CreateMember; a created user is its id and its email
pub record MemberReplies : Type 0 where
  pub create_user : Result String (String × String)
  pub delete_user : Option String
  pub add_to_group : Result String String
  pub remove_from_group : Option String
  pub db_create : Option String
