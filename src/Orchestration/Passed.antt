-- ===== src/Orchestration/Passed.antt =====
-- What the checks of FederateQuery let through.
use opendif_core.Base.{
  All, Bool-cases, List, Memᴰ, Option, Result, String, [], arith, eq_iff, err, false, inl, inr,
  is_empty, none, ok, refl, some, subst, sym, true, ◌++◌, ◌==◌, ◌∷◌, ◌≡◌,
}
use opendif_core.Orchestration.Checks.{
  Event, asked_ce, asked_pdp, check_consent, check_policy, consent_request, judge_consent,
  judge_reply, judge_response, pdp_request, queried, require_consent,
}
use opendif_core.Orchestration.Models.{
  CeConsentResponse, CeCreateConsentRequest, FederationServiceRequest, PdpRequest, PdpResponse,
  Provider, ProviderLevelFieldRecord, ce_status_approved,
}

-- What the policy check lets through.
abbrev pub IsAllowed :
    String
    → (PdpRequest → Result String (Option PdpResponse))
    → PdpRequest
    → Option PdpResponse
    → Type 0
IsAllowed pdp_url pdp req none = pdp_url ≡ ""
IsAllowed pdp_url pdp req (some r) =
    (pdp req ≡ ok (some r)) × (r.app_authorized ≡ true) × (r.app_access_expired ≡ false)

-- What the consent check lets through: the owner's consent is asked for wherever it is required,
-- and the answer is that it is approved.
abbrev pub IsConsented :
    (CeCreateConsentRequest → Result String (Option CeConsentResponse))
    → String
    → String
    → Option PdpResponse
    → Type 0
IsConsented ce app owner none = Unit
IsConsented ce app owner (some r) =
    r.app_requires_owner_consent ≡ true
    → (c : CeConsentResponse) × (ce (consent_request app owner r) ≡ ok (some c))
      × (c.status ≡ ce_status_approved)

abbrev pub IsCheck : Event → Type 0
IsCheck (asked_pdp q) = Unit
IsCheck (asked_ce q) = Unit
IsCheck (queried q p) = ⊥

-- A request to a provider is not among the calls of the checks.
pub drop_checks :
    {q : FederationServiceRequest} {p : Provider} (xs ys : List Event)
    → All IsCheck xs
    → Memᴰ (queried q p) (xs ++ ys)
    → Memᴰ (queried q p) ys
drop_checks [] ys a m = m
drop_checks (x ∷ xs) ys a (Memᴰ.head e) = absurd (subst IsCheck (sym e) a.0)
drop_checks (x ∷ xs) ys a (Memᴰ.tail m) = drop_checks xs ys a.1 m

judge_reply_ok :
    (q : Result String (Option PdpResponse)) {o : Option PdpResponse}
    → judge_reply q ≡ ok o
    → (r : PdpResponse) × (q ≡ ok (some r))
      × (o ≡ some r)
      × (r.app_authorized ≡ true)
      × (r.app_access_expired ≡ false)
unfolding judge_reply judge_response
judge_reply_ok (err e) h = absurd (ground arith)
judge_reply_ok (ok none) h = absurd (ground arith)
judge_reply_ok (ok (some r)) {o} h = elim (Bool-cases r.app_authorized) [
  | inl a ↦ elim (Bool-cases r.app_access_expired) [
    | inl x ↦ absurd (ground arith)
    | inr x ↦ (r, refl, ground arith, a, x)
  ]
  | inr a ↦ absurd (ground arith)
]

judge_consent-none :
    (q : Result String (Option CeConsentResponse))
    → judge_consent q ≡ none
    → (c : CeConsentResponse) × (q ≡ ok (some c)) × (c.status ≡ ce_status_approved)
unfolding judge_consent
judge_consent-none (err e) h = absurd (ground arith)
judge_consent-none (ok none) h = absurd (ground arith)
judge_consent-none (ok (some c)) h = elim (Bool-cases (c.status == ce_status_approved)) [
  | inl a ↦ (c, refl, (eq_iff _ _).0 a)
  | inr a ↦ absurd (ground arith)
]

module _ (pdp_url : String) (pdp : PdpRequest → Result String (Option PdpResponse)) (app : String)
    (fields : List ProviderLevelFieldRecord) where
  pub check_policy-checks : All IsCheck (check_policy pdp_url pdp app fields).1
  unfolding check_policy
  check_policy-checks = elim (Bool-cases (pdp_url == "")) [
    | inl e ↦ rw e tt
    | inr e ↦ rw e (tt, tt)
  ]

  pub check_policy-IsAllowed :
      {o : Option PdpResponse}
      → (check_policy pdp_url pdp app fields).0 ≡ ok o
      → IsAllowed pdp_url pdp (pdp_request app fields) o
  unfolding check_policy
  check_policy-IsAllowed {o} h = elim (Bool-cases (pdp_url == "")) [
    | inl e ↦
        let none_asked : o ≡ none = ground arith in
        subst (IsAllowed pdp_url pdp (pdp_request app fields)) (sym none_asked) ((eq_iff _ _).0 e)
    | inr e ↦
        let (r, a, same, b, c) = judge_reply_ok (pdp (pdp_request app fields)) (rw e at h) in
        subst (IsAllowed pdp_url pdp (pdp_request app fields)) (sym same) (a, b, c)
  ]

module _ (ce_url : String) (ce : CeCreateConsentRequest → Result String (Option CeConsentResponse))
    (app owner : String) where
  require_consent-checks : (r : PdpResponse) → All IsCheck (require_consent ce_url ce app owner r).1
  unfolding require_consent
  require_consent-checks r = elim (Bool-cases (is_empty r.consent_required_fields)) [
    | inl e ↦ rw e tt
    | inr e ↦ elim (Bool-cases (ce_url == "")) [ inl f ↦ rw (e, f) tt | inr f ↦ rw (e, f) (tt, tt) ]
  ]

  require_consent-none :
      (r : PdpResponse)
      → (require_consent ce_url ce app owner r).0 ≡ none
      → (c : CeConsentResponse) × (ce (consent_request app owner r) ≡ ok (some c))
        × (c.status ≡ ce_status_approved)
  unfolding require_consent
  require_consent-none r h = elim (Bool-cases (is_empty r.consent_required_fields)) [
    | inl e ↦ absurd (ground arith)
    | inr e ↦ elim (Bool-cases (ce_url == "")) [
      | inl f ↦ absurd (ground arith)
      | inr f ↦ judge_consent-none (ce (consent_request app owner r)) (ground arith)
    ]
  ]

  pub check_consent-checks :
      (o : Option PdpResponse) → All IsCheck (check_consent ce_url ce app owner o).1
  unfolding check_consent require_consent
  check_consent-checks none = tt
  check_consent-checks (some r) = elim (Bool-cases r.app_requires_owner_consent) [
    | inl e ↦ rw e (require_consent-checks r)
    | inr e ↦ rw e tt
  ]

  pub check_consent-IsConsented :
      (o : Option PdpResponse)
      → (check_consent ce_url ce app owner o).0 ≡ none
      → IsConsented ce app owner o
  unfolding check_consent require_consent
  check_consent-IsConsented none h = tt
  check_consent-IsConsented (some r) h = λ needed. require_consent-none r (rw needed at h)

pub no_query :
    {q : FederationServiceRequest} {p : Provider} (xs : List Event)
    → All IsCheck xs
    → ¬ Memᴰ (queried q p) xs
no_query [] a m = elim m [ ]
no_query (x ∷ xs) a (Memᴰ.head e) = subst IsCheck (sym e) a.0
no_query (x ∷ xs) a (Memᴰ.tail m) = no_query xs a.1 m
