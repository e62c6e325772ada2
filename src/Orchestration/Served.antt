-- ===== src/Orchestration/Served.antt =====
-- Which provider FederateQuery asks, and for what.
use opendif_core.Base.{
  Bool-cases, List, Memᴰ, Option, Option-cases, Result, String, [], and_iff, arith, eq_iff, err,
  inl, inr, ok, refl, some, ◌&&◌, ◌==◌, ◌∷◌, ◌≡◌,
}
use opendif_core.Orchestration.Checks.{check_consent, check_policy, data_owner, queried}
use opendif_core.Orchestration.Federate.{
  Answer, dispatch, federate_allowed, federate_owned, federate_query, federated, get_provider,
  perform_federation,
}
use opendif_core.Orchestration.Models.{
  CeConsentResponse, CeCreateConsentRequest, ErrorReply, FederationServiceRequest, PdpRequest,
  PdpResponse, Provider, ProviderLevelFieldRecord,
}
use opendif_core.Orchestration.Passed.{
  check_consent-checks, check_policy-checks, drop_checks, no_query,
}

-- The provider is one of the list, with the key and the schema of the request.
abbrev pub IsProviderOf : FederationServiceRequest → Provider → List Provider → Type 0
IsProviderOf q p providers =
    Memᴰ p providers × (p.service_key ≡ q.service_key) × (p.schema_id ≡ q.schema_id)

get_provider-IsProviderOf :
    (q : FederationServiceRequest) (p : Provider) (providers : List Provider)
    → get_provider q.service_key q.schema_id providers ≡ some p
    → IsProviderOf q p providers
unfolding get_provider
get_provider-IsProviderOf q p [] h = absurd (ground arith)
get_provider-IsProviderOf q p (x ∷ xs) h =
    elim (Bool-cases (x.service_key == q.service_key && x.schema_id == q.schema_id)) [
      | inl e ↦
          let same : p ≡ x = ground arith in
          let (k, s) = (and_iff _ _).0 e in
          (Memᴰ.head same, rw same ((eq_iff _ _).0 k), rw same ((eq_iff _ _).0 s))
      | inr e ↦
          let (there, k, s) = get_provider-IsProviderOf q p xs (ground arith) in
          (Memᴰ.tail there, k, s)
    ]

perform_federation-served :
    {q : FederationServiceRequest} {p : Provider} (providers : List Provider)
    (rs : List FederationServiceRequest)
    → Memᴰ (queried q p) (perform_federation providers rs)
    → Memᴰ q rs × IsProviderOf q p providers
unfolding perform_federation
perform_federation-served providers [] m = elim m [ ]
perform_federation-served {q} {p} providers (r ∷ rs) m =
    elim (Option-cases (get_provider r.service_key r.schema_id providers)) [
      | inl e ↦
          let (there, of_it) =
            perform_federation-served providers rs (rw (e, perform_federation) at m) in
          (Memᴰ.tail there, of_it)
      | inr (x, e) ↦
          split x e (perform_federation-served providers rs) (rw (e, perform_federation) at m)
    ]
  where
    split :
        (x : Provider)
        → get_provider r.service_key r.schema_id providers ≡ some x
        → (Memᴰ (queried q p) (perform_federation providers rs)
            → Memᴰ q rs × IsProviderOf q p providers)
        → Memᴰ (queried q p) (queried r x ∷ perform_federation providers rs)
        → Memᴰ q (r ∷ rs) × IsProviderOf q p providers
    split x e earlier (Memᴰ.head same) =
        let (a, b) : (q ≡ r) × (p ≡ x) = ground arith in
        (Memᴰ.head a, get_provider-IsProviderOf q p providers (rw (a, b, e)))
    split x e earlier (Memᴰ.tail there) = let (m', of_it) = earlier there in (Memᴰ.tail m', of_it)

module _ (built : Result ErrorReply (List FederationServiceRequest)) (providers : List Provider)
    (q : FederationServiceRequest) (p : Provider) where
  -- The answer is that of the requests which QueryBuilder built; `q` is one, and `p` its provider.
  abbrev pub IsServedBy : Answer → Type 0
  IsServedBy answer =
      (rs : List FederationServiceRequest) × (answer ≡ federated rs)
      × (built ≡ ok rs)
      × Memᴰ q rs
      × IsProviderOf q p providers

dispatch-IsServedBy :
    (built : Result ErrorReply (List FederationServiceRequest)) (providers : List Provider)
    {q : FederationServiceRequest} {p : Provider}
    → Memᴰ (queried q p) (dispatch providers built).1
    → IsServedBy built providers q p (dispatch providers built).0
unfolding dispatch
dispatch-IsServedBy (err e) providers m = elim m [ ]
dispatch-IsServedBy (ok []) providers m = elim m [ ]
dispatch-IsServedBy (ok (r ∷ rs)) providers m =
    let (a, b) = perform_federation-served providers (r ∷ rs) m in (r ∷ rs, refl, refl, a, b)

module _ (pdp_url ce_url : String) (pdp : PdpRequest → Result String (Option PdpResponse))
    (ce : CeCreateConsentRequest → Result String (Option CeConsentResponse))
    (build : List ProviderLevelFieldRecord → Result ErrorReply (List FederationServiceRequest))
    (providers : List Provider) (app : String) (fields : List ProviderLevelFieldRecord)
    {q : FederationServiceRequest} {p : Provider} where
  federate_owned-IsServedBy :
      (resp : Option PdpResponse) (owner : String)
      → Memᴰ
          (queried q p)
          (federate_owned pdp_url ce_url pdp ce build providers app fields resp owner).1
      → IsServedBy
          (build fields)
          providers
          q
          p
          (federate_owned pdp_url ce_url pdp ce build providers app fields resp owner).0
  unfolding federate_owned
  federate_owned-IsServedBy resp owner m =
      elim (Option-cases (check_consent ce_url ce app owner resp).0) [
        | inl e ↦
            rw (e, federate_owned)
              (dispatch-IsServedBy (build fields) providers (
                drop_checks _ _ (check_consent-checks ce_url ce app owner resp)
                  (rw (e, federate_owned) at m)))
        | inr (r, e) ↦ absurd (
            no_query _ (check_consent-checks ce_url ce app owner resp)
              (rw (e, federate_owned) at m))
      ]

  federate_allowed-IsServedBy :
      (args : List (Option String)) (resp : Option PdpResponse)
      → Memᴰ
          (queried q p)
          (federate_allowed pdp_url ce_url pdp ce build providers app fields args resp).1
      → IsServedBy
          (build fields)
          providers
          q
          p
          (federate_allowed pdp_url ce_url pdp ce build providers app fields args resp).0
  unfolding federate_allowed
  federate_allowed-IsServedBy args resp m = split (data_owner args) refl
    where
      split :
          (d : Result ErrorReply String)
          → data_owner args ≡ d
          → IsServedBy
              (build fields)
              providers
              q
              p
              (federate_allowed pdp_url ce_url pdp ce build providers app fields args resp).0
      split (ok owner) e =
          rw (e, federate_allowed)
            (federate_owned-IsServedBy resp owner (rw (e, federate_allowed) at m))
      split (err r) e =
          let none_made : Memᴰ (queried q p) [] = rw (e, federate_allowed) at m in
          absurd (no_query [] tt none_made)

  -- If FederateQuery sends a request to a provider, then its answer is no error response: it is
  -- made from the requests that QueryBuilder built for the collected fields, the request is one of
  -- them, and the provider is a registered one with the request's service key and schema id.
  pub federate_query-IsServedBy :
      (args : List (Option String))
      → Memᴰ (queried q p) (federate_query pdp_url ce_url pdp ce build providers app fields args).1
      → IsServedBy
          (build fields)
          providers
          q
          p
          (federate_query pdp_url ce_url pdp ce build providers app fields args).0
  unfolding federate_query
  federate_query-IsServedBy args m = split (check_policy pdp_url pdp app fields).0 refl
    where
      split :
          (v : Result ErrorReply (Option PdpResponse))
          → (check_policy pdp_url pdp app fields).0 ≡ v
          → IsServedBy
              (build fields)
              providers
              q
              p
              (federate_query pdp_url ce_url pdp ce build providers app fields args).0
      split (err r) e =
          absurd
            (no_query _ (check_policy-checks pdp_url pdp app fields) (rw (e, federate_query) at m))
      split (ok o) e =
          rw (e, federate_query)
            (federate_allowed-IsServedBy args o (
              drop_checks _ _ (check_policy-checks pdp_url pdp app fields)
                (rw (e, federate_query) at m)))
