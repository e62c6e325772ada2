-- ===== src/Consent/Rules.antt =====
-- ConsentService: exchange/consent-engine/v1/services/consent_service.go.
-- Durations, comparison of fields, validation, and the record that a request becomes.
use Prim.Native.String.{◌++◌ as concat}
use opendif_core.Base.{
  Bool, List, Option, String, [], eqb, false, if◌then◌else◌, is_empty, length, none, not, some,
  true, ℕ, ◌&&◌, ◌*◌, ◌+◌, ◌==◌, ◌||◌, ◌∷◌,
}
use opendif_core.Consent.Models.{
  ConsentField, ConsentRecord, CreateConsentRequest, Error, action_approve, action_reject, cause,
  duration_default, duration_one_day, duration_one_hour, duration_seven_days, duration_six_hours,
  duration_thirty_days, duration_twelve_hours, equals, status_pending, type_offline, type_realtime,
}

-- The readings of the clock and of the random source that one call makes.
pub record Readings : Type 0 where
  pub pending_check : ℕ
  pub grant_check : ℕ
  pub revoke_time : ℕ
  pub create_time : ℕ
  pub new_id : String

-- time.Hour, in nanoseconds
abbrev pub hour : ℕ
hour = 3600 * 1000000000

-- parseGrantDuration
unfoldable pub parse_grant_duration : String → ℕ
parse_grant_duration d =
    if d == duration_one_hour
    then hour
    else if d == duration_six_hours
    then 6 * hour
    else if d == duration_twelve_hours
    then 12 * hour
    else if d == duration_one_day
    then 24 * hour
    else if d == duration_seven_days
    then 7 * 24 * hour
    else if d == duration_thirty_days
    then 30 * 24 * hour
    else hour

-- parsePendingTimeoutDuration
unfoldable pub parse_pending_timeout_duration : String → ℕ
parse_pending_timeout_duration t =
    if t == type_realtime then hour else if t == type_offline then 24 * hour else hour

-- isValidGrantDuration
unfoldable pub is_valid_grant_duration : String → Bool
is_valid_grant_duration d =
    d == duration_one_hour
    || d == duration_six_hours
    || d == duration_twelve_hours
    || d == duration_one_day
    || d == duration_seven_days
    || d == duration_thirty_days

-- isValidConsentPortalAction
unfoldable pub is_valid_consent_portal_action : String → Bool
is_valid_consent_portal_action a = a == action_approve || a == action_reject

-- getGrantDurationOrDefault
unfoldable pub get_grant_duration_or_default : Option String → String
get_grant_duration_or_default none = duration_default
get_grant_duration_or_default (some d) = if d == "" then duration_default else d

-- the loop of areConsentFieldsEqual, which runs on lists of one length
unfoldable pub fields_equal : List ConsentField → List ConsentField → Bool
fields_equal [] [] = true
fields_equal (x ∷ xs) (y ∷ ys) = equals x y && fields_equal xs ys
fields_equal _ _ = false

-- areConsentFieldsEqual
unfoldable pub are_consent_fields_equal :
    Option (List ConsentField) → Option (List ConsentField) → Bool
unfolding fields_equal
are_consent_fields_equal none none = true
are_consent_fields_equal (some a) (some b) =
    if not (eqb (length a) (length b)) then false else fields_equal a b
are_consent_fields_equal _ _ = false

-- the loop over the fields in validateCreateConsentRequest
unfoldable pub validate_fields : List ConsentField → Option Error
validate_fields [] = none
validate_fields (f ∷ fs) =
    if f.field_name == ""
    then some (cause ∷ [])
    else if f.schema_id == ""
    then some (cause ∷ [])
    else validate_fields fs

-- the test of validateCreateConsentRequest on the optional grant duration
unfoldable pub grant_duration_refused : Option String → Bool
unfolding is_valid_grant_duration
grant_duration_refused none = false
grant_duration_refused (some d) = not (d == "") && not (is_valid_grant_duration d)

-- validateCreateConsentRequest
unfoldable pub validate_create_consent_request : CreateConsentRequest → Option Error
unfolding grant_duration_refused validate_fields
validate_create_consent_request req =
    if req.app_id == ""
    then some (cause ∷ [])
    else if grant_duration_refused req.grant_duration
    then some (cause ∷ [])
    else if req.consent_requirement.owner_id == ""
    then some (cause ∷ [])
    else if req.consent_requirement.owner_email == ""
    then some (cause ∷ [])
    else if is_empty req.consent_requirement.fields
    then some (cause ∷ [])
    else validate_fields req.consent_requirement.fields

-- `*req.ConsentType`, after the default is set
abbrev pub consent_type_or_default : Option String → String
consent_type_or_default none = type_realtime
consent_type_or_default (some t) = t

-- buildConsentRecord; `base_url` is the service's consentPortalBaseURL
unfoldable pub build_consent_record : String → Readings → CreateConsentRequest → ConsentRecord
unfolding parse_pending_timeout_duration get_grant_duration_or_default
build_consent_record base_url rd req =
    let type = consent_type_or_default req.consent_type in
    record {
      consent_id = rd.new_id;
      owner_id = req.consent_requirement.owner_id;
      owner_email = req.consent_requirement.owner_email;
      app_id = req.app_id;
      app_name = req.app_name;
      status = status_pending;
      type = type;
      created_at = rd.create_time;
      updated_at = rd.create_time;
      pending_expires_at = some (rd.create_time + parse_pending_timeout_duration type);
      grant_expires_at = none;
      grant_duration = get_grant_duration_or_default req.grant_duration;
      fields = req.consent_requirement.fields;
      session_id = none;
      consent_portal_url = concat base_url (concat "?consentId=" rd.new_id);
      updated_by = none;
    }
