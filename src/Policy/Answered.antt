-- ===== src/Policy/Answered.antt =====
-- When GetPolicyDecision gives a decision, and what its error names.
use opendif_core.Base.{
  Dict, IsOk, List, Memᴰ, Option-cases, Result, String, [], arith, err, inl, inr, lookup, none, ok,
  refl, subst, sym, ℕ, ◌+◌, ◌>>=◌, ◌↔◌, ◌∷◌, ◌≡◌,
}
use opendif_core.Policy.Decision.{Findings, decide, judge, judge_fields, no_findings, to_response}
use opendif_core.Policy.Models.{
  FieldRef, PolicyDecisionRequest, PolicyDecisionResponse, PolicyMetadata, index_metadata, key,
}
use opendif_core.Policy.Verdicts.{Each}

judge_fields-IsOk :
    (m : Dict PolicyMetadata) (app : String) (now : ℕ → ℕ) (i : ℕ) (fields : List FieldRef)
    (fs : Findings)
    → IsOk (judge_fields m app now i fields fs) ↔ Each m (λ t pm. Unit) now i fields
unfolding judge_fields
judge_fields-IsOk m app now i [] fs = (λ h. tt, λ h. tt)
judge_fields-IsOk m app now i (g ∷ rest) fs =
    elim (Option-cases (lookup (key g.schema_id g.field_name) m)) [
      | inl lost ↦
          rw (lost, judge_fields) (λ h. absurd h, λ ((pm, e, u), later). absurd (ground arith))
      | inr (pm, e) ↦
          let (to, from) = judge_fields-IsOk m app now (i + 1) rest (judge app (now i) pm fs) in
          rw (e, judge_fields) (λ h. ((pm, refl, tt), to h), λ (one, later). from later)
    ]

judge_fields-err :
    (m : Dict PolicyMetadata) (app : String) (now : ℕ → ℕ) (i : ℕ) (fields : List FieldRef)
    (fs : Findings) {f : FieldRef}
    → judge_fields m app now i fields fs ≡ err f
    → Memᴰ f fields × (lookup (key f.schema_id f.field_name) m ≡ none)
unfolding judge_fields
judge_fields-err m app now i [] fs h = absurd (ground arith)
judge_fields-err m app now i (g ∷ rest) fs {f} h =
    elim (Option-cases (lookup (key g.schema_id g.field_name) m)) [
      | inl lost ↦ let e : f ≡ g = ground arith in (Memᴰ.head e, rw e lost)
      | inr (pm, e) ↦
          let (there, none_at) =
            judge_fields-err m app now (i + 1) rest _ (rw (e, judge_fields) at h) in
          (Memᴰ.tail there, none_at)
    ]

-- What the answer says of the rows: a decision, and each required field has metadata; or the
-- error, and the field it names is required and has none.
abbrev pub IsAnswered :
    Dict PolicyMetadata → (ℕ → ℕ) → List FieldRef → Result FieldRef PolicyDecisionResponse → Type 0
IsAnswered m now fields (ok resp) = Each m (λ t pm. Unit) now 0 fields
IsAnswered m now fields (err f) = Memᴰ f fields × (lookup (key f.schema_id f.field_name) m ≡ none)

-- GetPolicyDecision gives a decision only where the map has metadata for each required field;
-- where it gives the error, the field that the error names is required and has none in the map.
pub decide-IsAnswered :
    (rows : List PolicyMetadata) (now : ℕ → ℕ) (req : PolicyDecisionRequest)
    → IsAnswered (index_metadata rows []) now req.required_fields (decide rows now req)
unfolding decide
decide-IsAnswered rows now req =
    split
      (judge_fields (index_metadata rows []) req.application_id now 0 req.required_fields
        no_findings)
      refl
  where
    split :
        (q : Result FieldRef Findings)
        → judge_fields
            (index_metadata rows [])
            req.application_id
            now
            0
            req.required_fields
            no_findings
          ≡ q
        → IsAnswered
            (index_metadata rows [])
            now
            req.required_fields
            (q >>= λ fs. ok (to_response fs))
    split (ok fs) e = (judge_fields-IsOk _ _ _ _ _ _).0 (subst IsOk (sym e) tt)
    split (err f) e = judge_fields-err _ _ _ _ _ _ e
