-- ===== src/Orchestration/Query/Least.antt =====
-- FederateQuery asks a provider for no more than it asked the policy decision point about.
use mathlib.Core.List.Memᴰ.{cases_cons}
use opendif_core.Base.{
  Bool-cases, Dict, List, Memᴰ, Option, Result, String, [], and_iff, arith, eq_iff, err, inl, inr,
  map, ok, refl, subst, sym, true, ◌&&◌, ◌==◌, ◌∙◌, ◌∷◌, ◌≡◌,
}
use opendif_core.Orchestration.Checks.{queried}
use opendif_core.Orchestration.Models.{
  CeConsentResponse, CeCreateConsentRequest, ErrorReply, FederationServiceRequest, PdpRequest,
  PdpResponse, Provider, ProviderLevelFieldRecord,
}
use opendif_core.Orchestration.Permitted.{IsPermitted, federate_query-IsPermitted}
use opendif_core.Orchestration.Query.Arguments.{
  ArgMapping, ArgSource, Visitor, provider_args, push_arguments, query_builder, request_of,
}
use opendif_core.Orchestration.Query.Asked.{build_provider_level_query-asks}
use opendif_core.Orchestration.Query.Attached.{has_path-push_arguments}
use opendif_core.Orchestration.Query.Built.{asks}
use opendif_core.Orchestration.Query.Collect.{
  Operation, Schema, SchemaCollection, provider_schema_collector,
}
use opendif_core.Orchestration.Query.Paths.{has_path, is_start}
use opendif_core.Orchestration.Query.Request.{federate_collected, federate_request, request_args}
use opendif_core.Orchestration.Query.Trees.{
  SelectionSet, Value, build_provider_level_query, split_dot,
}
use opendif_core.Orchestration.Query.Variables.{Input}
use opendif_core.Orchestration.Served.{federate_query-IsServedBy}
use opendif_core.Policy.Models.{key}

asks-IsStart :
    (k s d : String) (ys : List String) (fields : List ProviderLevelFieldRecord)
    → asks k s d ys fields ≡ true
    → (f : ProviderLevelFieldRecord) × Memᴰ f fields
      × (f.service_key ≡ k)
      × (f.schema_id ≡ s)
      × (is_start d ys (split_dot f.field_path).0 (split_dot f.field_path).1 ≡ true)
unfolding asks
asks-IsStart k s d ys [] h = absurd (ground arith)
asks-IsStart k s d ys (f ∷ fs) h =
    elim (Bool-cases (
      f.service_key == k
      && f.schema_id == s
      && is_start d ys (split_dot f.field_path).0 (split_dot f.field_path).1)) [
        | inl e ↦
            let (both, start) = (and_iff _ _).0 e in
            let (key, schema) = (and_iff _ _).0 both in
            (f, Memᴰ.head refl, (eq_iff _ _).0 key, (eq_iff _ _).0 schema, start)
        | inr e ↦
            let (g, m, a, b, start) = asks-IsStart k s d ys fs (ground (arith, h, e)) in
            (g, Memᴰ.tail m, a, b, start)
      ]

map-Memᴰ :
    {A B : Type 0} (f : A → B) {b : B} (xs : List A)
    → Memᴰ b (map f xs)
    → (a : A) × Memᴰ a xs × (b ≡ f a)
map-Memᴰ f [] m = elim m [ ]
map-Memᴰ f (x ∷ xs) m = elim (cases_cons m) [
  | inl e ↦ (x, Memᴰ.head refl, e)
  | inr there ↦ let (a, m', e) = map-Memᴰ f xs there in (a, Memᴰ.tail m', e)
]

-- Every field of the selection set lies on the way to one of the collected fields, which is of the
-- service key and the schema.
abbrev pub IsCovered :
    (service_key schema_id : String) → SelectionSet → List ProviderLevelFieldRecord → Type 0
IsCovered k s set fields =
    (d : String) (ys : List String)
    → has_path d ys set ≡ true
    → (f : ProviderLevelFieldRecord) × Memᴰ f fields
      × (f.service_key ≡ k)
      × (f.schema_id ≡ s)
      × (is_start d ys (split_dot f.field_path).0 (split_dot f.field_path).1 ≡ true)

module _ (visitor : Visitor) (print : String → SelectionSet → String) (args : List ArgSource)
    (fields : List ProviderLevelFieldRecord) where
  -- The request is the text of a query whose fields are covered by the collected fields.
  abbrev pub IsLeast : FederationServiceRequest → Type 0
  IsLeast q =
      (name : String) × (set : SelectionSet) × (q.graphql_request ≡ print name set)
      × IsCovered q.service_key q.schema_id set fields

  -- QueryBuilder gives no request with a field that is not on the way to a collected field.
  query_builder-IsLeast :
      (q : FederationServiceRequest) → Memᴰ q (query_builder visitor print args fields) → IsLeast q
  query_builder-IsLeast q m =
      let (pq, there, e) =
        map-Memᴰ (request_of visitor print args) (build_provider_level_query fields) m in
      let sources = provider_args pq args in
      rw e (
        pq.operation_name,
        push_arguments visitor sources pq.selections,
        refl,
        λ d ys h. asks-IsStart pq.service_key pq.schema_id d ys fields (
            sym (build_provider_level_query-asks fields pq d ys there)
            ∙ sym (has_path-push_arguments visitor sources d ys pq.selections)
            ∙ h),
      )

module _ (visitor : Visitor) (print : String → SelectionSet → String)
    (get_value : Value → Option String) {Int Float : Type 0} (rune_text : Int → String)
    (format_float : Float → String) (pdp_url ce_url : String)
    (pdp : PdpRequest → Result String (Option PdpResponse))
    (ce : CeCreateConsentRequest → Result String (Option CeConsentResponse))
    (providers : List Provider) (arg_map : List (Option ArgMapping)) (app : String)
    (schema : Schema) (operation : Operation) (variables : Option (Dict (Input Int Float)))
    (q : FederationServiceRequest) where
  -- What stands behind a request to a provider: the fields of its query are on the way to collected
  -- fields, for all of which the request is permitted.
  abbrev pub IsBehind : Type 0
  IsBehind =
      (c : SchemaCollection) × (provider_schema_collector schema (operation ∷ []) ≡ ok c)
      × ((args : List (Option String)) × IsPermitted pdp_url pdp ce app c.field_map args)
      × ((name : String) × (set : SelectionSet) × (q.graphql_request ≡ print name set)
          × IsCovered q.service_key q.schema_id set c.field_map)

  -- If FederateQuery sends a request to a provider for a parsed query, then it has collected the
  -- fields of the query, the policy decision point was asked about all of them and authorized the
  -- application, unless it has no URL, a required consent is approved, and the text that is sent
  -- is that of a query in which every field lies on the way to a collected field with the request's
  -- service key and schema id.
  pub federate_request-IsBehind :
      {p : Provider}
      → Memᴰ
          (queried q p)
          (federate_request visitor print get_value rune_text format_float pdp_url ce_url pdp ce
            providers arg_map app schema
            (operation ∷ [])
            variables).1
      → IsBehind
  unfolding federate_request federate_collected
  federate_request-IsBehind {p} m = split (provider_schema_collector schema (operation ∷ [])) refl
    where
      split :
          (v : Result ErrorReply SchemaCollection)
          → provider_schema_collector schema (operation ∷ []) ≡ v
          → IsBehind
      split (err e) h = elim (rw (h, federate_request) at m) [ ]
      split (ok c) h =
          let sent = rw (h, federate_request) at m in
          let args =
            request_args visitor print get_value rune_text format_float pdp_url ce_url pdp ce
              providers arg_map variables c in
          let permitted =
            federate_query-IsPermitted pdp_url ce_url pdp ce
              (λ fields. ok (query_builder visitor print args fields)) providers app c.field_map
              (map (λ a. get_value a.argument.value) args) sent in
          let (rs, answered, built, there, of_it) =
            federate_query-IsServedBy pdp_url ce_url pdp ce
              (λ fields. ok (query_builder visitor print args fields)) providers app c.field_map
              (map (λ a. get_value a.argument.value) args) sent in
          let same : query_builder visitor print args c.field_map ≡ rs = ground (arith, built) in
          (
            c,
            h,
            (map (λ a. get_value a.argument.value) args, permitted),
            query_builder-IsLeast visitor print args c.field_map q
                (subst (λ xs. Memᴰ q xs) (sym same) there),
          )
