-- ===== src/Consent/Comparison.antt =====
-- The comparison of consent fields (ConsentField.Equals, areConsentFieldsEqual).
use opendif_core.Base.{List, Option, [], arith, eq_iff, none, opt_eq_iff, some, true, ◌↔◌, ◌∷◌, ◌≡◌}
use opendif_core.Consent.Models.{ConsentField, equals}
use opendif_core.Consent.Rules.{are_consent_fields_equal, fields_equal}

equals_iff : (a b : ConsentField) → (equals a b ≡ true) ↔ (a ≡ b)
unfolding equals
equals_iff a b = ground (
  arith,
  eq_iff a.field_name b.field_name,
  eq_iff a.schema_id b.schema_id,
  opt_eq_iff a.display_name b.display_name,
  opt_eq_iff a.description b.description,
  eq_iff a.owner b.owner,
)

fields_equal_iff : (xs ys : List ConsentField) → (fields_equal xs ys ≡ true) ↔ (xs ≡ ys)
unfolding fields_equal
fields_equal_iff [] [] = ground arith
fields_equal_iff [] (y ∷ ys) = ground arith
fields_equal_iff (x ∷ xs) [] = ground arith
fields_equal_iff (x ∷ xs) (y ∷ ys) = ground (arith, equals_iff x y, fields_equal_iff xs ys)

-- areConsentFieldsEqual answers true exactly on two nil pointers and on pointers to equal lists,
-- compared field by field with all of their five members.
pub are_consent_fields_equal_iff :
    (a b : Option (List ConsentField)) → (are_consent_fields_equal a b ≡ true) ↔ (a ≡ b)
unfolding are_consent_fields_equal
are_consent_fields_equal_iff none none = ground arith
are_consent_fields_equal_iff none (some b) = ground arith
are_consent_fields_equal_iff (some a) none = ground arith
are_consent_fields_equal_iff (some a) (some b) = ground (arith, fields_equal_iff a b)
