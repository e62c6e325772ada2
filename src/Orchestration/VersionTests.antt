-- ===== src/Orchestration/VersionTests.antt =====
-- Runs of the schema service, and its theorems at concrete inputs.
use opendif_core.Base.{
  All, List, Memᴰ, Option, String, [], ap, false, if◌then◌else◌, insert, lookup, map, none, refl,
  some, subst, sym, true, ◌==◌, ◌∙◌, ◌∷◌, ◌≡◌,
}
use opendif_core.Orchestration.Activated.{
  IsActiveFor, SchemaCall, activates, creates, run_call, run_calls, run_calls-version_of,
  version_of,
}
use opendif_core.Orchestration.Compatibility.{
  analyze_compatibility, changes_type, check_compatibility, extract_fields, extract_objects,
  get_type_definition, group_by_type, has_removed_fields, has_type_changes, lacks_group, lacks_key,
}
use opendif_core.Orchestration.Declared.{Declares, HasPlainNames}
use opendif_core.Orchestration.Notation.{IsPlainType, bang, bracket, is_not}
use opendif_core.Orchestration.Preserved.{check_compatibility-Declares}
use opendif_core.Orchestration.Query.Asked.{IsUnique}
use opendif_core.Orchestration.Query.Collect.{
  FieldDefinition, ObjectDefinition, Schema, TypeRef, named, non_null,
}
use opendif_core.Orchestration.Versions.{
  ActivateReplies, UnifiedSchema, activate_schema, activate_version, create_version, first_active,
  get_active_schema, get_schema_by_version, insert_schema,
}

service : Unit {0}
unfolding insert_schema activate_version activate_schema first_active get_schema_by_version
    create_version get_active_schema get_type_definition extract_fields extract_objects
    group_by_type lacks_key lacks_group changes_type has_removed_fields has_type_changes
    analyze_compatibility check_compatibility run_call run_calls insert lookup
service = tt

abbrev checksum : String → String
checksum sdl = "c0"

abbrev all_well : ActivateReplies
all_well = record {
  begins = none;
  deactivates = none;
  activates = none;
  affected = none;
  commits = none;
}

abbrev lost : ActivateReplies
lost = record {
  begins = none;
  deactivates = none;
  activates = none;
  affected = none;
  commits = some "connection reset";
}

-- Two versions, the first activated, then an activation of the second that does not commit, one of
-- an unknown version, and a second row for the first version.
abbrev calls : List SchemaCall
calls =
    creates none "id1" 1 1 "1.0" "type A" "ann"
    ∷ creates none "id2" 2 2 "2.0" "type A B" "ann"
    ∷ activates all_well "1.0"
    ∷ activates lost "2.0"
    ∷ activates all_well "3.0"
    ∷ creates none "id3" 3 3 "1.0" "type C" "bob"
    ∷ []

keeps_first : (run_calls checksum calls [] none).1 ≡ some "1.0"
unfolding service
keeps_first = refl

run_calls-version_of_example :
    IsUnique (map (λ s. s.version) (run_calls checksum calls [] none).0)
    × All (IsActiveFor (run_calls checksum calls [] none).1) (run_calls checksum calls [] none).0
    × (version_of (first_active (run_calls checksum calls [] none).0)
        ≡ (run_calls checksum calls [] none).1)
run_calls-version_of_example = run_calls-version_of checksum calls

abbrev query_of : TypeRef → ObjectDefinition
query_of t = record {
  name = "Query";
  fields = record { name = "a"; field_type = t; directives = [] } ∷ [];
}

abbrev doc_of : TypeRef → Schema
doc_of t = some (query_of t) ∷ []

abbrev parse : String → Option Schema
parse sdl =
    if sdl == "type A"
    then some (doc_of (named "Int"))
    else if sdl == "type A!"
    then some (doc_of (non_null (named "Int")))
    else none

abbrev active_row : UnifiedSchema
active_row = record {
  id = "id1";
  version = "1.0";
  sdl = "type A";
  status = "inactive";
  description = "";
  created_at = 1;
  updated_at = 1;
  created_by = "ann";
  checksum = "c0";
  is_active = true;
}

abbrev active_rows : List UnifiedSchema
active_rows = active_row ∷ []

refuses_change :
    check_compatibility parse none "type A!" active_rows ≡ (false, "breaking changes detected")
unfolding service
refuses_change = refl

-- An SDL that does not parse is compatible.
accepts_unread : check_compatibility parse none "type" active_rows ≡ (true, "compatible")
unfolding service
accepts_unread = refl

accepts_same : (check_compatibility parse none "type A" active_rows).0 ≡ true
unfolding service
accepts_same = refl

a_Declares : Declares (doc_of (named "Int")) "Query" "a" (named "Int")
a_Declares = (_, Memᴰ.head refl, refl, (_, Memᴰ.head refl, refl, refl))

only_field :
    (fd : FieldDefinition) (other : TypeRef)
    → Memᴰ fd (query_of (named "Int")).fields
    → fd.field_type ≡ other
    → other ≡ named "Int"
only_field fd other (Memᴰ.head e) is_type = sym is_type ∙ ap (λ g. g.field_type) e
only_field fd other (Memᴰ.tail l) is_type = elim l [ ]

one_type :
    (other : TypeRef) → Declares (doc_of (named "Int")) "Query" "a" other → other ≡ named "Int"
one_type other (o, Memᴰ.head e, is_t, (fd, n, is_f, is_type)) =
    let same : o ≡ query_of (named "Int") = cc e in
    only_field fd other (subst (λ y. Memᴰ fd y.fields) same n) is_type
one_type other (o, Memᴰ.tail l, is_t, rest) = elim l [ ]

int_plain : IsPlainType (named "Int")
int_plain = (
  (is_not "I" bang refl, (is_not "n" bang refl, (is_not "t" bang refl, tt))),
  (is_not "I" bracket refl, (is_not "n" bracket refl, (is_not "t" bracket refl, tt))),
)

doc_plain : HasPlainNames (doc_of (named "Int"))
doc_plain = (
  (
    (
      is_not "Q" "." refl,
      (
        is_not "u" "." refl,
        (is_not "e" "." refl, (is_not "r" "." refl, (is_not "y" "." refl, tt))),
      ),
    ),
    (int_plain, tt),
  ),
  tt,
)

check_compatibility-Declares_example : Declares (doc_of (named "Int")) "Query" "a" (named "Int")
unfolding service
check_compatibility-Declares_example =
    check_compatibility-Declares parse "type A" active_rows active_row (doc_of (named "Int"))
      (doc_of (named "Int")) "Query" "a" (named "Int") refl refl refl doc_plain doc_plain refl
      a_Declares one_type
