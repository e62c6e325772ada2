-- ===== src/Portal/ServiceTests.antt =====
-- Runs of the portal backend's services, and their theorems at concrete inputs.
use opendif_core.Base.{
  String, [], arith, err, length, none, ok, refl, some, subst, ℕ, ◌==◌, ◌∷◌, ◌≡◌,
}
use opendif_core.Portal.ApplicationReads.{get_application_id, get_applications}
use opendif_core.Portal.ApplicationRecords.{Application, CreateApplicationRequest, CreateReplies}
use opendif_core.Portal.Applications.{
  allow_application, create_application, insert_application, undo_application,
}
use opendif_core.Portal.Approvals.{IsUpdated, update_application_submission-IsUpdated}
use opendif_core.Portal.Joined.{
  IsJoined, IsRestored, create_member-IsJoined, update_member-IsRestored,
}
use opendif_core.Portal.MemberRecords.{
  CreateMemberRequest, MemberReplies, MemberRow, MemberWorld, UpdateMemberRequest,
}
use opendif_core.Portal.MemberUpdates.{save_member, update_member, user_of, write_user}
use opendif_core.Portal.Members.{
  create_member, insert_member, is_membership, join_group, undo_membership, undo_user,
}
use opendif_core.Portal.Offered.{IsEdited, update_schema_submission-IsEdited}
use opendif_core.Portal.Rows.{all_where, drop_where, first_where, read_first, save_where}
use opendif_core.Portal.Sagas.{IsAtomic, create_application-IsAtomic}
use opendif_core.Portal.SchemaRecords.{
  SchemaSubmission, SchemaSubmissionReplies, SchemaWorld, UpdateSchemaSubmissionRequest,
}
use opendif_core.Portal.SchemaSubmissions.{
  approve_schema, change_schema_submission, check_previous_schema, update_schema_submission,
}
use opendif_core.Portal.Schemas.{create_schema}
use opendif_core.Portal.SubmissionRecords.{
  ApplicationSubmission, SubmissionReplies, UpdateApplicationSubmissionRequest,
}
use opendif_core.Portal.Submissions.{
  World, approve_submission, change_submission, check_previous, request_of_submission,
  update_application_submission,
}

service : Unit {0}
unfolding first_where drop_where save_where read_first create_application insert_application
    allow_application undo_application approve_submission change_submission check_previous
    update_application_submission create_member join_group insert_member undo_user undo_membership
    update_member save_member create_schema check_previous_schema approve_schema
    change_schema_submission update_schema_submission get_application_id get_applications all_where
service = tt

abbrev format : ℕ → String
format n = "2026"

abbrev replies : CreateReplies
replies = record {
  idp_create = ok "idp1";
  idp_oidc = ok "client1";
  db_create = none;
  allow_list = some "503";
  db_delete = none;
  idp_delete = none;
}

abbrev old_application : Application
old_application = record {
  application_id = "a0";
  application_name = "old";
  application_description = some "";
  selected_fields = [];
  member_id = "mem_1";
  version = "active";
  idp_application_id = some "idp0";
  idp_client_id = some "client0";
  created_at = 1;
  updated_at = 1;
}

abbrev submission : ApplicationSubmission
submission = record {
  submission_id = "sub_1";
  previous_application_id = none;
  application_name = "tax";
  application_description = none;
  selected_fields = record { field_name = "person.nic"; schema_id = "s1" } ∷ [];
  member_id = "mem_1";
  status = "approved";
  review = none;
  created_at = 2;
  updated_at = 3;
}

abbrev world : World
world = record {
  applications = old_application ∷ [];
  submissions = submission ∷ [];
  idp_applications = "idp0" ∷ [];
  allow_lists = [];
}

abbrev app_request : CreateApplicationRequest
app_request = request_of_submission submission

-- The policy decision point fails, and nothing is left.
undone :
    create_application format replies "a1" 9 app_request world
    ≡ (err "failed to update allow list: 503", world)
unfolding service
undone = refl

is_new :
    (i : String)
    → replies.idp_create ≡ ok i
    → first_where (λ j. j == i) world.idp_applications ≡ none
unfolding service
is_new i h =
    let same : "idp1" ≡ i = ground arith in
    subst (λ k. first_where (λ j. j == k) world.idp_applications ≡ none) same refl

create_application-IsAtomic_example :
    IsAtomic format replies "a1" 9 app_request world
      (create_application format replies "a1" 9 app_request world)
unfolding service
create_application-IsAtomic_example =
    create_application-IsAtomic format replies "a1" 9 app_request world refl refl refl is_new

abbrev sub_replies : SubmissionReplies
sub_replies = record {
  read_submission = none;
  read_previous = none;
  save_submission = none;
  create = record {
    idp_create = ok "idp1";
    idp_oidc = ok "client1";
    db_create = none;
    allow_list = none;
    db_delete = none;
    idp_delete = none;
  };
  save_pending = none;
}

abbrev approve_request : UpdateApplicationSubmissionRequest
approve_request = record {
  application_name = none;
  application_description = none;
  selected_fields = none;
  status = some "approved";
  previous_application_id = none;
  review = some "fine";
}

update_application_submission-IsUpdated_example :
    IsUpdated format sub_replies "a1" 5 6 7 approve_request world "sub_1"
      (update_application_submission format sub_replies "a1" 5 6 7 approve_request "sub_1" world)
unfolding service
update_application_submission-IsUpdated_example =
    update_application_submission-IsUpdated format sub_replies "a1" 5 6 7 approve_request world refl
      refl refl is_new refl "sub_1"

-- The submission was approved before, and there is one more application all the same.
approved_again :
    length
      (update_application_submission format sub_replies "a1" 5 6 7 approve_request "sub_1"
        world).1.applications
    ≡ 2
unfolding service
approved_again = refl

abbrev member_row : MemberRow
member_row = record {
  member_id = "mem_1";
  name = "Ann";
  email = "ann@x";
  phone_number = "1";
  idp_user_id = "u1";
  created_at = 1;
  updated_at = 1;
}

abbrev member_world : MemberWorld
member_world = record {
  members = member_row ∷ [];
  users = record { id = "u1"; email = "ann@x"; first_name = "Ann"; phone_number = "1" } ∷ [];
  memberships = record { group_id = "g1"; user_id = "u1" } ∷ [];
}

abbrev member_replies : MemberReplies
member_replies = record {
  create_user = ok ("u2", "bob@x");
  delete_user = none;
  add_to_group = ok "g1";
  remove_from_group = none;
  db_create = some "duplicate";
}

abbrev member_request : CreateMemberRequest
member_request = record { name = "Bob"; email = "bob@x"; phone_number = "2" }

new_one :
    (user : String × String)
    → member_replies.create_user ≡ ok user
    → first_where (λ u. u.id == user.0) member_world.users ≡ none
unfolding service
new_one user h =
    let same : ("u2", "bob@x") ≡ user = ground arith in
    subst (λ v. first_where (λ u. u.id == v.0) member_world.users ≡ none) same refl

no_group :
    (user : String × String) (group_id : String)
    → member_replies.create_user ≡ ok user
    → first_where (is_membership group_id user.0) member_world.memberships ≡ none
unfolding service
no_group user group_id h =
    let same : ("u2", "bob@x") ≡ user = ground arith in
    subst (λ v. first_where (is_membership group_id v.0) member_world.memberships ≡ none) same
      (ground arith)

create_member-IsJoined_example :
    IsJoined format member_replies "2" 5 member_request member_world
      (create_member format member_replies "2" 5 member_request member_world)
create_member-IsJoined_example =
    create_member-IsJoined format member_replies "2" 5 member_request member_world refl refl new_one
      no_group

abbrev rename_request : UpdateMemberRequest
rename_request = record { name = some "Anne"; phone_number = none }

in_step :
    (old : MemberRow)
    → first_where (λ m. m.member_id == "mem_1") member_world.members ≡ some old
    → write_user format (user_of format old) member_world.users ≡ member_world.users
unfolding service
in_step old h =
    let same : member_row ≡ old = ground arith in
    subst (λ m. write_user format (user_of format m) member_world.users ≡ member_world.users) same
      refl

update_member-IsRestored_example :
    IsRestored format none none
      (some "down")
      none
      5
      rename_request
      member_world
      "mem_1"
      (update_member format none none (some "down") none 5 rename_request "mem_1" member_world)
update_member-IsRestored_example =
    update_member-IsRestored format none none (some "down") none 5 rename_request member_world
      "mem_1" refl in_step

abbrev schema_submission : SchemaSubmission
schema_submission = record {
  submission_id = "sub_1";
  previous_schema_id = none;
  schema_name = "people";
  schema_description = none;
  sdl = "type Query";
  schema_endpoint = "http://drp";
  status = "pending";
  member_id = "mem_1";
  review = none;
  created_at = 1;
  updated_at = 1;
}

abbrev schema_world : SchemaWorld
schema_world = record { schemas = []; submissions = schema_submission ∷ []; metadata = [] }

abbrev schema_replies : SchemaSubmissionReplies
schema_replies = record {
  read_submission = none;
  read_previous = none;
  save_submission = none;
  create = record { db_create = none; create_metadata = some "400"; db_delete = none };
  save_pending = none;
}

abbrev approve_schema_request : UpdateSchemaSubmissionRequest
approve_schema_request = record {
  schema_name = none;
  schema_description = none;
  sdl = some "type Query { a: Int }";
  schema_endpoint = none;
  status = some "approved";
  previous_schema_id = none;
  review = none;
}

update_schema_submission-IsEdited_example :
    IsEdited format schema_replies "1" 5 6 7 approve_schema_request schema_world "sub_1" (
      update_schema_submission format schema_replies "1" 5 6 7 approve_schema_request "sub_1"
        schema_world)
unfolding service
update_schema_submission-IsEdited_example =
    update_schema_submission-IsEdited format schema_replies "1" 5 6 7 approve_schema_request
      schema_world refl refl refl "sub_1"
