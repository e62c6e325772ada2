-- ===== src/Orchestration/Permitted.antt =====
-- What must have been answered before FederateQuery asks a provider.
use opendif_core.Base.{
  List, Memᴰ, Option, Option-cases, Result, String, [], err, inl, inr, ok, refl, ◌≡◌,
}
use opendif_core.Orchestration.Checks.{
  check_consent, check_policy, data_owner, pdp_request, queried,
}
use opendif_core.Orchestration.Federate.{federate_allowed, federate_owned, federate_query}
use opendif_core.Orchestration.Models.{
  CeConsentResponse, CeCreateConsentRequest, ErrorReply, FederationServiceRequest, PdpRequest,
  PdpResponse, Provider, ProviderLevelFieldRecord,
}
use opendif_core.Orchestration.Passed.{
  IsAllowed, IsConsented, check_consent-IsConsented, check_consent-checks, check_policy-IsAllowed,
  check_policy-checks, drop_checks, no_query,
}

module _ (pdp_url : String) (pdp : PdpRequest → Result String (Option PdpResponse))
    (ce : CeCreateConsentRequest → Result String (Option CeConsentResponse)) (app : String)
    (fields : List ProviderLevelFieldRecord) where
  -- What stands behind a request to a provider: either there is no policy decision point, or its
  -- answer to the request for all collected fields authorizes the application and is not expired,
  -- and where it requires consent the consent engine has approved.
  abbrev pub IsPermitted : List (Option String) → Type 0
  IsPermitted args =
      (o : Option PdpResponse) × IsAllowed pdp_url pdp (pdp_request app fields) o
      × ((owner : String) × (data_owner args ≡ ok owner) × IsConsented ce app owner o)

module _ (pdp_url ce_url : String) (pdp : PdpRequest → Result String (Option PdpResponse))
    (ce : CeCreateConsentRequest → Result String (Option CeConsentResponse))
    (build : List ProviderLevelFieldRecord → Result ErrorReply (List FederationServiceRequest))
    (providers : List Provider) (app : String) (fields : List ProviderLevelFieldRecord)
    {q : FederationServiceRequest} {p : Provider} where
  federate_owned-IsConsented :
      (resp : Option PdpResponse) (owner : String)
      → Memᴰ
          (queried q p)
          (federate_owned pdp_url ce_url pdp ce build providers app fields resp owner).1
      → IsConsented ce app owner resp
  unfolding federate_owned
  federate_owned-IsConsented resp owner m =
      elim (Option-cases (check_consent ce_url ce app owner resp).0) [
        | inl e ↦ check_consent-IsConsented ce_url ce app owner resp e
        | inr (r, e) ↦ absurd (
            no_query _ (check_consent-checks ce_url ce app owner resp)
              (rw (e, federate_owned) at m))
      ]

  federate_allowed-IsConsented :
      (args : List (Option String)) (resp : Option PdpResponse)
      → Memᴰ
          (queried q p)
          (federate_allowed pdp_url ce_url pdp ce build providers app fields args resp).1
      → (owner : String) × (data_owner args ≡ ok owner) × IsConsented ce app owner resp
  unfolding federate_allowed
  federate_allowed-IsConsented args resp m = split (data_owner args) refl
    where
      split :
          (d : Result ErrorReply String)
          → data_owner args ≡ d
          → (owner : String) × (data_owner args ≡ ok owner) × IsConsented ce app owner resp
      split (ok owner) e =
          (owner, e, federate_owned-IsConsented resp owner (rw (e, federate_allowed) at m))
      split (err r) e =
          let none_made : Memᴰ (queried q p) [] = rw (e, federate_allowed) at m in
          absurd (no_query [] tt none_made)

  -- If FederateQuery sends a request to a provider, then the URL of the policy decision point is
  -- empty, or that point answered the request for the application and all collected fields, and the
  -- answer authorizes the application and has not expired; the first extracted argument is
  -- an owner id; and where the answer requires the owner's consent, the consent engine
  -- answered the request for this owner and the fields that need consent with an approved consent.
  pub federate_query-IsPermitted :
      (args : List (Option String))
      → Memᴰ (queried q p) (federate_query pdp_url ce_url pdp ce build providers app fields args).1
      → IsPermitted pdp_url pdp ce app fields args
  unfolding federate_query
  federate_query-IsPermitted args m = split (check_policy pdp_url pdp app fields).0 refl
    where
      split :
          (v : Result ErrorReply (Option PdpResponse))
          → (check_policy pdp_url pdp app fields).0 ≡ v
          → IsPermitted pdp_url pdp ce app fields args
      split (err r) e =
          absurd
            (no_query _ (check_policy-checks pdp_url pdp app fields) (rw (e, federate_query) at m))
      split (ok o) e = (
        o,
        check_policy-IsAllowed pdp_url pdp app fields e,
        federate_allowed-IsConsented args o (
            drop_checks _ _ (check_policy-checks pdp_url pdp app fields)
              (rw (e, federate_query) at m)),
      )
