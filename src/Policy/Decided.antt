-- ===== src/Policy/Decided.antt =====
-- What a decision of GetPolicyDecision means.
use opendif_core.Base.{
  List, Result, [], arith, err, false, is_empty, not_eq_false, ok, refl, true, ℕ, ◌+◌, ◌↔◌, ◌∷◌,
  ◌≡◌,
}
use opendif_core.Policy.Decision.{Findings, decide, judge_fields, no_findings, to_response}
use opendif_core.Policy.Index.{AreClear, IsRowOf, index-row}
use opendif_core.Policy.Models.{
  FieldRef, PolicyDecisionRequest, PolicyDecisionResponse, PolicyMetadata, index_metadata,
}
use opendif_core.Policy.Verdicts.{
  Each, HasNotLapsed, IsClean, IsFree, IsListed, decide_iff, judge-IsFree, judge_lapsed,
  judge-IsListed,
}

decide-Findings :
    (rows : List PolicyMetadata) (now : ℕ → ℕ) (req : PolicyDecisionRequest)
    {resp : PolicyDecisionResponse}
    → decide rows now req ≡ ok resp
    → (fs : Findings) × (judge_fields
          (index_metadata rows [])
          req.application_id
          now
          0
          req.required_fields
          no_findings
        ≡ ok fs)
      × (resp ≡ to_response fs)
unfolding decide
decide-Findings rows now req {resp} h =
    split
      (judge_fields (index_metadata rows []) req.application_id now 0 req.required_fields
        no_findings)
      refl
  where
    split :
        (q : Result FieldRef Findings)
        → judge_fields
            (index_metadata rows [])
            req.application_id
            now
            0
            req.required_fields
            no_findings
          ≡ q
        → (fs : Findings) × (judge_fields
              (index_metadata rows [])
              req.application_id
              now
              0
              req.required_fields
              no_findings
            ≡ ok fs)
          × (resp ≡ to_response fs)
    split (ok fs) e = (fs, e, ground arith)
    split (err f) e = absurd (ground arith)

-- Where a decision is given, it says that the application is authorized exactly where it is on the
-- allow list of every required field, and that its access has expired exactly where not every
-- field's entry is missing or still running at the reading of the clock for that field.
pub decide_flags :
    (rows : List PolicyMetadata) (now : ℕ → ℕ) (req : PolicyDecisionRequest)
    {resp : PolicyDecisionResponse}
    → decide rows now req ≡ ok resp
    → ((resp.app_authorized ≡ true)
        ↔ Each
            (index_metadata rows [])
            (λ t pm. IsListed req.application_id pm)
            now
            0
            req.required_fields)
      × ((resp.app_access_expired ≡ false)
          ↔ Each
              (index_metadata rows [])
              (HasNotLapsed req.application_id)
              now
              0
              req.required_fields)
decide_flags rows now req {resp} h =
    let (fs, loop, same) = decide-Findings rows now req h in
    let m = index_metadata rows [] in
    let listed =
      decide_iff m req.application_id now (λ r. is_empty r.unauthorized ≡ true)
        (λ t pm. IsListed req.application_id pm) (judge-IsListed req.application_id) rows refl refl
        req.required_fields loop in
    let lapsed =
      decide_iff m req.application_id now (λ r. is_empty r.expired ≡ true)
        (HasNotLapsed req.application_id) (judge_lapsed req.application_id) rows refl refl
        req.required_fields loop in
    rw same (listed, (λ e. lapsed.0 (not_eq_false _ e), λ e. rw (lapsed.1 e)))

-- Each field has a row of its schema and name, of which `P` holds at the field's clock reading.
abbrev pub EachRow :
    List PolicyMetadata → (ℕ → PolicyMetadata → Type 0) → (ℕ → ℕ) → ℕ → List FieldRef → Type 0
EachRow rows P now i [] = Unit
EachRow rows P now i (f ∷ fs) =
    ((pm : PolicyMetadata) × IsRowOf rows f pm × P (now i) pm) × EachRow rows P now (i + 1) fs

Each-rows :
    (rows : List PolicyMetadata) (P : ℕ → PolicyMetadata → Type 0) (now : ℕ → ℕ) (i : ℕ)
    (fields : List FieldRef)
    → AreClear rows fields
    → Each (index_metadata rows []) P now i fields
    → EachRow rows P now i fields
Each-rows rows P now i [] c e = tt
Each-rows rows P now i (f ∷ fs) c ((pm, at_key, held), later) = (
  (pm, index-row rows f pm c.0 c.1.0 at_key, held),
  Each-rows rows P now (i + 1) fs (c.0, c.1.1) later,
)

IsClean-Findings :
    (fs : Findings)
    → (to_response fs).app_authorized ≡ true
    → (to_response fs).app_access_expired ≡ false
    → (to_response fs).app_requires_owner_consent ≡ false
    → IsClean fs
IsClean-Findings fs a e c = (a, not_eq_false _ e, not_eq_false _ c)

-- A decision that lets the application read at once (authorized, not expired, no consent needed)
-- is given only if every required field has a row of its schema and name whose allow list has the
-- application, with an entry still running at the clock's reading for the field, and the field is
-- its owner's own or not restricted. No schema id holds a colon.
pub decide_sound :
    (rows : List PolicyMetadata) (now : ℕ → ℕ) (req : PolicyDecisionRequest)
    {resp : PolicyDecisionResponse}
    → AreClear rows req.required_fields
    → decide rows now req ≡ ok resp
    → resp.app_authorized ≡ true
    → resp.app_access_expired ≡ false
    → resp.app_requires_owner_consent ≡ false
    → EachRow rows (IsFree req.application_id) now 0 req.required_fields
decide_sound rows now req {resp} clear h a e c =
    let (fs, loop, same) = decide-Findings rows now req h in
    let free =
      decide_iff (index_metadata rows []) req.application_id now IsClean (IsFree req.application_id)
        (judge-IsFree req.application_id) rows refl (refl, refl, refl) req.required_fields loop in
    let clean = IsClean-Findings fs (rw same at a) (rw same at e) (rw same at c) in
    Each-rows rows (IsFree req.application_id) now 0 req.required_fields clear (free.0 clean)
