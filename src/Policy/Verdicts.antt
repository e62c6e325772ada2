-- ===== src/Policy/Verdicts.antt =====
-- GetPolicyDecision against what its flags should mean.
use opendif_core.Base.{
  Bool-cases, Dict, List, Option-cases, String, [], arith, eq_false→ne, false, inl, inr, is_empty,
  lookup, ltb, ltb→le, ne→eq_false, none, not, ok, refl, some, subst, true, ℕ, ◌&&◌, ◌++◌, ◌+◌,
  ◌==◌, ◌↔◌, ◌∷◌, ◌≡◌, ◌≢◌, ◌≤◌, ◌⊎◌,
}
use opendif_core.Policy.Decision.{Findings, judge, judge_fields, no_findings, to_field_record}
use opendif_core.Policy.Models.{
  AllowListEntry, FieldRef, PolicyMetadata, access_control_restricted, index_metadata, key,
}

-- The application is on the row's allow list.
pub record IsListed (application_id : String) (pm : PolicyMetadata) : Type 0 where
  pub entry : AllowListEntry
  pub allowed : lookup application_id pm.allow_list ≡ some entry

-- It is not on the list, or its entry has not ended.
pub data HasNotLapsed (application_id : String) (now : ℕ) (pm : PolicyMetadata) : Type 0 where
  unlisted : lookup application_id pm.allow_list ≡ none → HasNotLapsed application_id now pm
  running :
      (entry : AllowListEntry)
      → lookup application_id pm.allow_list ≡ some entry
      → now ≤ entry.expires_at
      → HasNotLapsed application_id now pm

-- The application may read the field at once: it is on the list, its entry has not ended, and the
-- field is its owner's own or not restricted.
pub record IsFree (application_id : String) (now : ℕ) (pm : PolicyMetadata) : Type 0 where
  pub entry : AllowListEntry
  pub allowed : lookup application_id pm.allow_list ≡ some entry
  pub current : now ≤ entry.expires_at
  pub open_field : (pm.is_owner ≡ true) ⊎ (pm.access_control_type ≢ access_control_restricted)

-- `P` holds of the metadata of each field, at the reading of the clock for it.
abbrev pub Each :
    Dict PolicyMetadata → (ℕ → PolicyMetadata → Type 0) → (ℕ → ℕ) → ℕ → List FieldRef → Type 0
Each m P now i [] = Unit
Each m P now i (f ∷ fs) =
    ((pm : PolicyMetadata) × (lookup (key f.schema_id f.field_name) m ≡ some pm) × P (now i) pm)
    × Each m P now (i + 1) fs

-- A property of the findings that each field adds its part to is one of all fields.
module _ (m : Dict PolicyMetadata) (app : String) (now : ℕ → ℕ) (Q : Findings → Type 0)
    (P : ℕ → PolicyMetadata → Type 0)
    (one : (t : ℕ) (pm : PolicyMetadata) (fs : Findings)
      → Q (judge app t pm fs) ↔ (Q fs × P t pm)) where
  judge_fields_to :
      (i : ℕ) (fields : List FieldRef) (fs : Findings) {r : Findings}
      → judge_fields m app now i fields fs ≡ ok r
      → Q r
      → Q fs × Each m P now i fields
  unfolding judge_fields
  judge_fields_to i [] fs {r} h q = let e : r ≡ fs = ground arith in (subst Q e q, tt)
  judge_fields_to i (f ∷ rest) fs {r} h q =
      elim (Option-cases (lookup (key f.schema_id f.field_name) m)) [
        | inl lost ↦ absurd (ground arith)
        | inr (pm, e) ↦
            let (after, later) =
              judge_fields_to (i + 1) rest (judge app (now i) pm fs) (rw (e, judge_fields) at h)
                q in
            let (before, held) = (one (now i) pm fs).0 after in (before, ((pm, e, held), later))
      ]

  judge_fields_from :
      (i : ℕ) (fields : List FieldRef) (fs : Findings) {r : Findings}
      → judge_fields m app now i fields fs ≡ ok r
      → Q fs
      → Each m P now i fields
      → Q r
  unfolding judge_fields
  judge_fields_from i [] fs {r} h q e = let same : fs ≡ r = ground arith in subst Q same q
  judge_fields_from i (f ∷ rest) fs {r} h q ((pm, found_at, held), later) =
      judge_fields_from (i + 1) rest (judge app (now i) pm fs) (rw (found_at, judge_fields) at h)
        ((one (now i) pm fs).1 (q, held)) later

  -- with the flags of the response
  pub decide_iff :
      (rows : List PolicyMetadata)
      → m ≡ index_metadata rows []
      → Q no_findings
      → (fields : List FieldRef) {r : Findings} → judge_fields m app now 0 fields no_findings ≡ ok r
      → Q r ↔ Each m P now 0 fields
  decide_iff rows same none_yet fields {r} h = (
    λ q. (judge_fields_to 0 fields no_findings h q).1,
    λ e. judge_fields_from 0 fields no_findings h none_yet e,
  )

-- Nothing was found.
abbrev pub IsClean : Findings → Type 0
IsClean fs =
    (is_empty fs.unauthorized ≡ true)
    × (is_empty fs.expired ≡ true)
    × (is_empty fs.consent_required ≡ true)

open_if :
    (pm : PolicyMetadata)
    → (not pm.is_owner && pm.access_control_type == access_control_restricted) ≡ false
    → (pm.is_owner ≡ true) ⊎ (pm.access_control_type ≢ access_control_restricted)
open_if pm h = elim (Bool-cases pm.is_owner) [
  | inl own ↦ inl own
  | inr other ↦ inr (eq_false→ne _ _ (ground arith))
]

closed_if :
    (pm : PolicyMetadata)
    → (pm.is_owner ≡ true) ⊎ (pm.access_control_type ≢ access_control_restricted)
    → (not pm.is_owner && pm.access_control_type == access_control_restricted) ≡ false
closed_if pm (inl own) = ground arith
closed_if pm (inr other) = ground (arith, ne→eq_false _ _ other)

is_empty-snoc : {A : Type 0} (xs : List A) (x : A) → is_empty (xs ++ x ∷ []) ≡ false
is_empty-snoc [] x = refl
is_empty-snoc (y ∷ ys) x = refl

pub judge-IsListed :
    (app : String) (t : ℕ) (pm : PolicyMetadata) (fs : Findings)
    → (is_empty (judge app t pm fs).unauthorized ≡ true)
      ↔ ((is_empty fs.unauthorized ≡ true) × IsListed app pm)
unfolding judge
judge-IsListed app t pm fs = elim (Option-cases (lookup app pm.allow_list)) [
  | inl none_there ↦ (
    λ h. absurd (ground (arith, is_empty-snoc fs.unauthorized (to_field_record pm))),
    λ h. absurd (ground (arith, h.1.allowed)),
  )
  | inr (e, there) ↦ (λ h. (ground arith, record { entry = e; allowed = there }), λ h. ground arith)
]

pub judge_lapsed :
    (app : String) (t : ℕ) (pm : PolicyMetadata) (fs : Findings)
    → (is_empty (judge app t pm fs).expired ≡ true)
      ↔ ((is_empty fs.expired ≡ true) × HasNotLapsed app t pm)
unfolding judge
judge_lapsed app t pm fs = (to, λ h. from h.0 h.1)
  where
    to :
        is_empty (judge app t pm fs).expired ≡ true
        → (is_empty fs.expired ≡ true) × HasNotLapsed app t pm
    to h = elim (Option-cases (lookup app pm.allow_list)) [
      | inl none_there ↦ (ground arith, unlisted none_there)
      | inr (e, there) ↦ elim (Bool-cases (ltb e.expires_at t)) [
        | inl over ↦ absurd (ground (arith, is_empty-snoc fs.expired (to_field_record pm)))
        | inr on ↦ (ground arith, running e there (ltb→le _ _ on))
      ]
    ]

    from :
        is_empty fs.expired ≡ true
        → HasNotLapsed app t pm
        → is_empty (judge app t pm fs).expired ≡ true
    from q (unlisted none_there) = ground arith
    from q (running e there on) = ground arith

-- what the loop adds to the fields that need consent
pub judge-IsFree :
    (app : String) (t : ℕ) (pm : PolicyMetadata) (fs : Findings)
    → IsClean (judge app t pm fs) ↔ (IsClean fs × IsFree app t pm)
unfolding judge
judge-IsFree app t pm fs = (to, λ h. from h.0 h.1)
  where
    to : IsClean (judge app t pm fs) → IsClean fs × IsFree app t pm
    to h = elim (Option-cases (lookup app pm.allow_list)) [
      | inl none_there ↦
          absurd (ground (arith, h, is_empty-snoc fs.unauthorized (to_field_record pm)))
      | inr (e, there) ↦ elim (Bool-cases (ltb e.expires_at t)) [
        | inl over ↦ absurd (ground (arith, h, is_empty-snoc fs.expired (to_field_record pm)))
        | inr on ↦
            elim (Bool-cases
              (not pm.is_owner && pm.access_control_type == access_control_restricted)) [
                | inl need ↦
                    absurd
                      (ground (arith, h, is_empty-snoc fs.consent_required (to_field_record pm)))
                | inr free ↦ (
                  ground (arith, h),
                  record {
                    entry = e;
                    allowed = there;
                    current = ltb→le _ _ on;
                    open_field = open_if pm free;
                  },
                )
              ]
      ]
    ]

    from : IsClean fs → IsFree app t pm → IsClean (judge app t pm fs)
    from q h = ground (arith, closed_if pm h.open_field, h.allowed, h.current)
