-- ===== src/Consent/Validation.antt =====
-- What validateCreateConsentRequest accepts.
use opendif_core.Base.{
  All, Bool-cases, List, Option, String, [], arith, eq_iff, false, inl, inr, is_empty, none, refl,
  some, true, ◌==◌, ◌↔◌, ◌∷◌, ◌≡◌, ◌≢◌,
}
use opendif_core.Consent.Models.{ConsentField, CreateConsentRequest}
use opendif_core.Consent.Rules.{
  grant_duration_refused, is_valid_grant_duration, validate_create_consent_request, validate_fields,
}

-- the six durations of models/constants.go
pub data IsGrantDuration : String → Type 0 where
  one_hour : {d : String} → d ≡ "PT1H" → IsGrantDuration d
  six_hours : {d : String} → d ≡ "PT6H" → IsGrantDuration d
  twelve_hours : {d : String} → d ≡ "PT12H" → IsGrantDuration d
  one_day : {d : String} → d ≡ "P1D" → IsGrantDuration d
  seven_days : {d : String} → d ≡ "P7D" → IsGrantDuration d
  thirty_days : {d : String} → d ≡ "P30D" → IsGrantDuration d

-- absent, empty, or one of the six
pub data IsDurationChoice : Option String → Type 0 where
  absent : IsDurationChoice none
  blank : IsDurationChoice (some "")
  chosen : {d : String} → IsGrantDuration d → IsDurationChoice (some d)

abbrev pub IsNamed : ConsentField → Type 0
IsNamed f = (f.field_name ≢ "") × (f.schema_id ≢ "")

pub record IsComplete (req : CreateConsentRequest) : Type 0 where
  pub app_id : req.app_id ≢ ""
  pub duration : IsDurationChoice req.grant_duration
  pub owner_id : req.consent_requirement.owner_id ≢ ""
  pub owner_email : req.consent_requirement.owner_email ≢ ""
  pub some_field : req.consent_requirement.fields ≢ []
  pub all_named : All IsNamed req.consent_requirement.fields

is_valid_grant_duration_sound : (d : String) → is_valid_grant_duration d ≡ true → IsGrantDuration d
unfolding is_valid_grant_duration
is_valid_grant_duration_sound d h = grind (
  arith,
  one_hour,
  six_hours,
  twelve_hours,
  one_day,
  seven_days,
  thirty_days,
  eq_iff d "PT1H",
  eq_iff d "PT6H",
  eq_iff d "PT12H",
  eq_iff d "P1D",
  eq_iff d "P7D",
  eq_iff d "P30D",
)

is_valid_grant_duration_complete :
    {d : String} → IsGrantDuration d → is_valid_grant_duration d ≡ true
unfolding is_valid_grant_duration
is_valid_grant_duration_complete {d} (one_hour e) = rw e
is_valid_grant_duration_complete {d} (six_hours e) = rw e
is_valid_grant_duration_complete {d} (twelve_hours e) = rw e
is_valid_grant_duration_complete {d} (one_day e) = rw e
is_valid_grant_duration_complete {d} (seven_days e) = rw e
is_valid_grant_duration_complete {d} (thirty_days e) = rw e

grant_duration_refused_sound :
    (d : Option String) → grant_duration_refused d ≡ false → IsDurationChoice d
unfolding grant_duration_refused
grant_duration_refused_sound none h = absent
grant_duration_refused_sound (some d) h = elim (Bool-cases (d == "")) [
  | inl e ↦ rw ((eq_iff d "").0 e) blank
  | inr e ↦ chosen (is_valid_grant_duration_sound d (ground arith))
]

grant_duration_refused_complete :
    {d : Option String} → IsDurationChoice d → grant_duration_refused d ≡ false
unfolding grant_duration_refused
grant_duration_refused_complete absent = refl
grant_duration_refused_complete blank = refl
grant_duration_refused_complete (chosen {d} c) = ground (arith, is_valid_grant_duration_complete c)

validate_fields_iff : (fs : List ConsentField) → (validate_fields fs ≡ none) ↔ All IsNamed fs
unfolding validate_fields
validate_fields_iff [] = ground arith
validate_fields_iff (f ∷ fs) =
    ground (arith, eq_iff f.field_name "", eq_iff f.schema_id "", validate_fields_iff fs)

is_empty-ne-nil : {A : Type 0} (xs : List A) → xs ≢ [] → is_empty xs ≡ false
is_empty-ne-nil [] h = absurd (h refl)
is_empty-ne-nil (x ∷ xs) h = refl

validate_sound :
    (req : CreateConsentRequest) → validate_create_consent_request req ≡ none → IsComplete req
unfolding validate_create_consent_request
validate_sound req h =
    let a = eq_iff req.app_id "" in
    let i = eq_iff req.consent_requirement.owner_id "" in
    let e = eq_iff req.consent_requirement.owner_email "" in
    let f = validate_fields_iff req.consent_requirement.fields in
    record {
      app_id = ground (arith, a);
      duration = grant_duration_refused_sound req.grant_duration (ground arith);
      owner_id = ground (arith, i);
      owner_email = ground (arith, e);
      some_field = ground arith;
      all_named = f.0 (ground arith);
    }

validate_complete :
    (req : CreateConsentRequest) → IsComplete req → validate_create_consent_request req ≡ none
unfolding validate_create_consent_request
validate_complete req h = ground (
  arith,
  eq_iff req.app_id "",
  eq_iff req.consent_requirement.owner_id "",
  eq_iff req.consent_requirement.owner_email "",
  grant_duration_refused_complete h.duration,
  is_empty-ne-nil req.consent_requirement.fields h.some_field,
  (validate_fields_iff req.consent_requirement.fields).1 h.all_named,
)

-- validateCreateConsentRequest reports no error exactly where the application, the owner's id and
-- email are given, the grant duration is absent, empty or one of the six, there is a field, and
-- every field has a name and a schema.
pub validate_create_consent_request_iff :
    (req : CreateConsentRequest) → (validate_create_consent_request req ≡ none) ↔ IsComplete req
validate_create_consent_request_iff req = (validate_sound req, validate_complete req)
