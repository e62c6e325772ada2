-- ===== src/Orchestration/Query/Required.antt =====
-- Which mappings FindRequiredArguments keeps.
use mathlib.Core.List.Memᴰ.{append_cases}
use opendif_core.Base.{
  Bool, Bool-cases, List, Memᴰ, Option, String, [], and_iff, ap, arith, elem, elem-append, eq_iff,
  false, if◌then◌else◌, inl, inr, map, none, not, refl, some, true, ◌&&◌, ◌++◌, ◌==◌, ◌||◌, ◌∙◌,
  ◌∷◌, ◌≡◌, ◌⊎◌,
}
use opendif_core.Orchestration.Models.{ProviderLevelFieldRecord}
use opendif_core.Orchestration.Query.Arguments.{
  ArgMapping, contains_arg, find_required_arguments, needs, require_all, require_for,
}

-- Is there a mapping in the list that the field needs, with the target path?
unfoldable pub wants : ProviderLevelFieldRecord → String → List (Option ArgMapping) → Bool
wants f target [] = false
wants f target (none ∷ arg_map) = wants f target arg_map
wants f target (some arg ∷ arg_map) =
    (needs f arg && arg.target_arg_path == target) || wants f target arg_map

unfoldable pub any_wants : List ProviderLevelFieldRecord → String → List (Option ArgMapping) → Bool
any_wants [] target arg_map = false
any_wants (f ∷ fs) target arg_map = wants f target arg_map || any_wants fs target arg_map

abbrev targets : List ArgMapping → List String
targets args = map (λ a. a.target_arg_path) args

targets-append :
    (xs : List ArgMapping) (a : ArgMapping)
    → targets (xs ++ a ∷ []) ≡ targets xs ++ a.target_arg_path ∷ []
targets-append [] a = refl
targets-append (x ∷ xs) a = ap (λ ts. x.target_arg_path ∷ ts) (targets-append xs a)

elem-targets :
    (target : String) (xs : List ArgMapping) (a : ArgMapping)
    → elem target (targets (xs ++ a ∷ []))
      ≡ (elem target (targets xs) || a.target_arg_path == target)
elem-targets target xs a =
    ap (elem target) (targets-append xs a)
    ∙ elem-append target (targets xs) (a.target_arg_path ∷ [])
    ∙ ground arith

require_for-wants :
    (f : ProviderLevelFieldRecord) (target : String) (arg_map : List (Option ArgMapping))
    (required : List ArgMapping)
    → elem target (targets (require_for f arg_map required))
      ≡ (elem target (targets required) || wants f target arg_map)
unfolding require_for wants
require_for-wants f target [] required = ground arith
require_for-wants f target (none ∷ arg_map) required = require_for-wants f target arg_map required
require_for-wants f target (some arg ∷ arg_map) required =
    elim (Bool-cases (needs f arg && not (contains_arg required arg))) [
      | inl e ↦
          let later = require_for-wants f target arg_map (required ++ arg ∷ []) in
          rw e (rw (later, elem-targets target required arg) (ground (arith, e)))
      | inr e ↦
          let later = require_for-wants f target arg_map required in
          rw e (rw later (ground (arith, e, eq_iff arg.target_arg_path target)))
    ]

require_all-wants :
    (fields : List ProviderLevelFieldRecord) (target : String) (arg_map : List (Option ArgMapping))
    (required : List ArgMapping)
    → elem target (targets (require_all fields arg_map required))
      ≡ (elem target (targets required) || any_wants fields target arg_map)
unfolding require_all any_wants
require_all-wants [] target arg_map required = ground arith
require_all-wants (f ∷ fs) target arg_map required =
    let first_field = require_for-wants f target arg_map required in
    let later = require_all-wants fs target arg_map (require_for f arg_map required) in
    rw later (ground (arith, first_field))

-- FindRequiredArguments keeps a mapping of a target path just where a field needs one: a mapping
-- of the field's service key and schema whose target path is a start of the field's path.
pub find_required_arguments-wants :
    (fields : List ProviderLevelFieldRecord) (target : String) (arg_map : List (Option ArgMapping))
    → elem target (map (λ a. a.target_arg_path) (find_required_arguments fields arg_map))
      ≡ any_wants fields target arg_map
find_required_arguments-wants fields target arg_map = require_all-wants fields target arg_map []

-- A mapping of the list that one of the fields needs.
abbrev pub IsRequired :
    List ProviderLevelFieldRecord → List (Option ArgMapping) → ArgMapping → Type 0
IsRequired fields arg_map a =
    (f : ProviderLevelFieldRecord) × Memᴰ f fields × Memᴰ (some a) arg_map × (needs f a ≡ true)

require_for-IsRequired :
    (f : ProviderLevelFieldRecord) (arg_map : List (Option ArgMapping)) (required : List ArgMapping)
    {a : ArgMapping}
    → Memᴰ a (require_for f arg_map required)
    → (Memᴰ (some a) arg_map × (needs f a ≡ true)) ⊎ Memᴰ a required
unfolding require_for
require_for-IsRequired f [] required m = inr m
require_for-IsRequired f (none ∷ arg_map) required m =
    elim (require_for-IsRequired f arg_map required m) [
      | inl (there, e) ↦ inl (Memᴰ.tail there, e)
      | inr before ↦ inr before
    ]
require_for-IsRequired f (some arg ∷ arg_map) required {a} m =
    elim (require_for-IsRequired f arg_map _ m) [
      | inl (there, e) ↦ inl (Memᴰ.tail there, e)
      | inr before ↦ split before
    ]
  where
    split :
        Memᴰ a (
          if needs f arg && not (contains_arg required arg) then required ++ arg ∷ [] else required)
        → (Memᴰ (some a) (some arg ∷ arg_map) × (needs f a ≡ true)) ⊎ Memᴰ a required
    split before = elim (Bool-cases (needs f arg && not (contains_arg required arg))) [
      | inl e ↦ elim (append_cases required (rw e at before)) [
        | inl old ↦ inr old
        | inr (Memᴰ.head same) ↦ inl (Memᴰ.head (ap some same), rw same ((and_iff _ _).0 e).0)
        | inr (Memᴰ.tail none_left) ↦ elim none_left [ ]
      ]
      | inr e ↦ inr (rw e at before)
    ]

require_all-IsRequired :
    (fields : List ProviderLevelFieldRecord) (arg_map : List (Option ArgMapping))
    (required : List ArgMapping) {a : ArgMapping}
    → Memᴰ a (require_all fields arg_map required)
    → IsRequired fields arg_map a ⊎ Memᴰ a required
unfolding require_all
require_all-IsRequired [] arg_map required m = inr m
require_all-IsRequired (f ∷ fs) arg_map required m =
    elim (require_all-IsRequired fs arg_map (require_for f arg_map required) m) [
      | inl (g, there, in_map, e) ↦ inl (g, Memᴰ.tail there, in_map, e)
      | inr before ↦ elim (require_for-IsRequired f arg_map required before) [
        | inl (in_map, e) ↦ inl (f, Memᴰ.head refl, in_map, e)
        | inr old ↦ inr old
      ]
    ]

-- A mapping that FindRequiredArguments keeps is one of the configured mappings and is needed by a
-- field.
pub find_required_arguments-IsRequired :
    (fields : List ProviderLevelFieldRecord) (arg_map : List (Option ArgMapping)) (a : ArgMapping)
    → Memᴰ a (find_required_arguments fields arg_map)
    → IsRequired fields arg_map a
find_required_arguments-IsRequired fields arg_map a m =
    elim (require_all-IsRequired fields arg_map [] m) [
      | inl required ↦ required
      | inr nothing ↦ elim nothing [ ]
    ]
