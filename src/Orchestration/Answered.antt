-- ===== src/Orchestration/Answered.antt =====
-- When FederateQuery answers.
use opendif_core.Base.{
  Bool-cases, List, Memᴰ, Option, Option-cases, Result, String, [], false, inl, inr, is_empty,
  ne→eq_false, none, ok, refl, some, true, ◌++◌, ◌∷◌, ◌≡◌, ◌≢◌, ◌⊎◌,
}
use opendif_core.Orchestration.Checks.{
  Event, check_consent, check_policy, consent_request, data_owner, judge_consent, judge_reply,
  judge_response, pdp_request, queried, require_consent,
}
use opendif_core.Orchestration.Federate.{
  dispatch, federate_allowed, federate_owned, federate_query, federated, get_provider,
  perform_federation,
}
use opendif_core.Orchestration.Models.{
  CeConsentResponse, CeCreateConsentRequest, ErrorReply, FederationServiceRequest, PdpRequest,
  PdpResponse, Provider, ProviderLevelFieldRecord, ce_status_approved,
}

-- The consent check passes: no consent is required, or the consent engine approves.
abbrev pub IsConsentMet :
    String
    → (CeCreateConsentRequest → Result String (Option CeConsentResponse))
    → String
    → String
    → PdpResponse
    → Type 0
IsConsentMet ce_url ce app owner r =
    (r.app_requires_owner_consent ≡ false)
    ⊎ ((is_empty r.consent_required_fields ≡ false)
        × (ce_url ≢ "")
        × ((c : CeConsentResponse) × (ce (consent_request app owner r) ≡ ok (some c))
            × (c.status ≡ ce_status_approved)))

-- Every request whose provider is registered is sent.
abbrev pub IsSent : List Provider → List FederationServiceRequest → List Event → Type 0
IsSent providers rs events =
    (q : FederationServiceRequest) (p : Provider)
    → Memᴰ q rs
    → get_provider q.service_key q.schema_id providers ≡ some p
    → Memᴰ (queried q p) events

perform_federation-IsSent :
    (providers : List Provider) (rs : List FederationServiceRequest)
    → IsSent providers rs (perform_federation providers rs)
unfolding perform_federation
perform_federation-IsSent providers [] q p m e = elim m [ ]
perform_federation-IsSent providers (r ∷ rs) q p (Memᴰ.head same) e =
    let at_r : get_provider r.service_key r.schema_id providers ≡ some p = rw⁻¹ same e in
    rw (at_r, perform_federation) (Memᴰ.head (rw same))
perform_federation-IsSent providers (r ∷ rs) q p (Memᴰ.tail m) e =
    elim (Option-cases (get_provider r.service_key r.schema_id providers)) [
      | inl lost ↦ rw (lost, perform_federation) (perform_federation-IsSent providers rs q p m e)
      | inr (x, at_r) ↦
          rw (at_r, perform_federation) (Memᴰ.tail (perform_federation-IsSent providers rs q p m e))
    ]

mem_after : {x : Event} (xs : List Event) {ys : List Event} → Memᴰ x ys → Memᴰ x (xs ++ ys)
mem_after [] m = m
mem_after (y ∷ xs) m = Memᴰ.tail (mem_after xs m)

check_consent_met :
    (ce_url : String) (ce : CeCreateConsentRequest → Result String (Option CeConsentResponse))
    (app owner : String) (r : PdpResponse)
    → IsConsentMet ce_url ce app owner r
    → (check_consent ce_url ce app owner (some r)).0 ≡ none
unfolding check_consent require_consent judge_consent
check_consent_met ce_url ce app owner r (inl free) = simp free
check_consent_met ce_url ce app owner r (inr (some_fields, set, (c, e, approval))) =
    elim (Bool-cases r.app_requires_owner_consent) [
      | inl needed ↦ simp needed (simp (some_fields, ne→eq_false _ _ set) (rw (e, approval) refl))
      | inr free ↦ simp free
    ]

check_policy_allowed :
    (pdp_url : String) (pdp : PdpRequest → Result String (Option PdpResponse)) (app : String)
    (fields : List ProviderLevelFieldRecord) (r : PdpResponse)
    → pdp_url ≢ ""
    → pdp (pdp_request app fields) ≡ ok (some r)
    → r.app_authorized ≡ true
    → r.app_access_expired ≡ false
    → (check_policy pdp_url pdp app fields).0 ≡ ok (some r)
unfolding check_policy judge_reply judge_response
check_policy_allowed pdp_url pdp app fields r set e a x =
    simp (ne→eq_false _ _ set, e) (simp (a, x))

-- FederateQuery answers with the providers' part where the policy decision point authorizes the
-- application and its access has not expired, the arguments give an owner id, no consent is
-- required or the consent engine gives an approved one for fields that the response names, and
-- QueryBuilder builds at least one request; and it sends every request whose provider is
-- registered.
pub federate_query-IsSent :
    (pdp_url ce_url : String) (pdp : PdpRequest → Result String (Option PdpResponse))
    (ce : CeCreateConsentRequest → Result String (Option CeConsentResponse))
    (build : List ProviderLevelFieldRecord → Result ErrorReply (List FederationServiceRequest))
    (providers : List Provider) (app : String) (fields : List ProviderLevelFieldRecord)
    (args : List (Option String)) (r : PdpResponse) (owner : String) (r₁ : FederationServiceRequest)
    (rs : List FederationServiceRequest)
    → pdp_url ≢ ""
    → pdp (pdp_request app fields) ≡ ok (some r)
    → r.app_authorized ≡ true
    → r.app_access_expired ≡ false
    → data_owner args ≡ ok owner
    → IsConsentMet ce_url ce app owner r
    → build fields ≡ ok (r₁ ∷ rs)
    → ((federate_query pdp_url ce_url pdp ce build providers app fields args).0
        ≡ federated (r₁ ∷ rs))
      × IsSent providers
          (r₁ ∷ rs)
          (federate_query pdp_url ce_url pdp ce build providers app fields args).1
unfolding federate_query federate_allowed federate_owned dispatch
federate_query-IsSent pdp_url ce_url pdp ce build providers app fields args r owner r₁ rs set e a x
      owned met built =
    let policy = check_policy_allowed pdp_url pdp app fields r set e a x in
    let consent = check_consent_met ce_url ce app owner r met in
    (
      rw (policy, federate_query)
          (rw (owned, federate_allowed) (rw (consent, federate_owned) (rw (built, dispatch) refl))),
      λ q p m found_at.
          let last : Memᴰ (queried q p) (dispatch providers (build fields)).1 =
            rw (built, dispatch) (perform_federation-IsSent providers _ q p m found_at) in
          let owned_calls : Memᴰ (queried q p)
              (federate_owned pdp_url ce_url pdp ce build providers app fields (some r) owner).1 =
            rw (consent, federate_owned)
              (mem_after (check_consent ce_url ce app owner (some r)).1 last) in
          let later : Memᴰ (queried q p)
              (federate_allowed pdp_url ce_url pdp ce build providers app fields args (some r)).1 =
            rw (owned, federate_allowed) owned_calls in
          rw (policy, federate_query) (mem_after (check_policy pdp_url pdp app fields).1 later),
    )
