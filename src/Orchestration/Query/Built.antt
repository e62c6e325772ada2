-- ===== src/Orchestration/Query/Built.antt =====
-- Which queries BuildProviderLevelQuery opens, and which paths they get.
use opendif_core.Base.{
  Bool, Bool-cases, List, Option, String, [], and_iff, ap, arith, elem, elem-append, eq_iff, false,
  if◌then◌else◌, inl, inr, none, not, opt_eq, refl, some, subst, true, ◌&&◌, ◌++◌, ◌==◌, ◌||◌, ◌∷◌,
  ◌≡◌,
}
use opendif_core.Orchestration.Models.{ProviderLevelFieldRecord}
use opendif_core.Orchestration.Query.Paths.{has_path, has_path-push_field, is_start}
use opendif_core.Orchestration.Query.Trees.{
  ProviderQuery, add_path, build_queries, open_query, split_dot,
}

-- The schema of the first field with the service key.
unfoldable pub first_schema : String → List ProviderLevelFieldRecord → Option String
first_schema k [] = none
first_schema k (f ∷ fs) = if f.service_key == k then some f.schema_id else first_schema k fs

-- Is there a field of the service key and the schema whose path starts with the given one?
unfoldable pub asks : (k s d : String) → List String → List ProviderLevelFieldRecord → Bool
asks k s d ys [] = false
asks k s d ys (f ∷ fs) =
    (f.service_key == k
      && f.schema_id == s
      && is_start d ys (split_dot f.field_path).0 (split_dot f.field_path).1)
    || asks k s d ys fs

module _ (k s : String) where
  -- Is there a query for the service key and the schema?
  unfoldable pub is_open : List ProviderQuery → Bool
  is_open [] = false
  is_open (q ∷ qs) = (q.service_key == k && q.schema_id == s) || is_open qs

  -- Has the first such query a field at the path?
  unfoldable pub reaches : String → List String → List ProviderQuery → Bool
  reaches d ys [] = false
  reaches d ys (q ∷ qs) =
      if q.service_key == k && q.schema_id == s then has_path d ys q.selections else reaches d ys qs

  is_open-append : (qs rs : List ProviderQuery) → is_open (qs ++ rs) ≡ (is_open qs || is_open rs)
  unfolding is_open
  is_open-append [] rs = refl
  is_open-append (q ∷ qs) rs = let later = is_open-append qs rs in ground (arith, later)

  reaches-open_query :
      (d : String) (ys : List String) (f : ProviderLevelFieldRecord) (qs : List ProviderQuery)
      → reaches d ys (qs ++ open_query f ∷ []) ≡ reaches d ys qs
  unfolding reaches has_path
  reaches-open_query d ys f [] = ground arith
  reaches-open_query d ys f (q ∷ qs) =
      let later = reaches-open_query d ys f qs in ground (arith, later)

  is_open-add_path :
      (f : ProviderLevelFieldRecord) (qs : List ProviderQuery)
      → is_open (add_path f qs) ≡ is_open qs
  unfolding is_open add_path
  is_open-add_path f [] = refl
  is_open-add_path f (q ∷ qs) =
      let later = is_open-add_path f qs in
      elim (Bool-cases (q.service_key == f.service_key && q.schema_id == f.schema_id)) [
        | inl e ↦ rw e refl
        | inr e ↦ rw e (rw (later, is_open) refl)
      ]

  -- Is the field of the service key and the schema?
  abbrev is_for : ProviderLevelFieldRecord → Bool
  is_for f = f.service_key == k && f.schema_id == s

  reaches-add_path :
      (d : String) (ys : List String) (f : ProviderLevelFieldRecord) (qs : List ProviderQuery)
      → reaches d ys (add_path f qs) ≡ (
          reaches d ys qs
          || (is_for f
              && is_open qs
              && is_start d ys (split_dot f.field_path).0 (split_dot f.field_path).1))
  unfolding reaches is_open add_path
  reaches-add_path d ys f [] = ground arith
  reaches-add_path d ys f (q ∷ qs) =
      let later = reaches-add_path d ys f qs in
      let pushed =
        has_path-push_field d ys (split_dot f.field_path).0 (split_dot f.field_path).1
          q.selections in
      elim (Bool-cases (q.service_key == f.service_key && q.schema_id == f.schema_id)) [
        | inl e ↦
            let (ek, es) = (and_iff _ _).0 e in
            let at_key = ap (λ x. x == k) ((eq_iff q.service_key f.service_key).0 ek) in
            let schema = ap (λ x. x == s) ((eq_iff q.schema_id f.schema_id).0 es) in
            rw e (rw (pushed, at_key, schema) (ground (arith, later)))
        | inr e ↦ rw e (
            rw (later, reaches)
              (ground (
                arith,
                e,
                eq_iff q.service_key f.service_key,
                eq_iff q.schema_id f.schema_id,
                eq_iff q.service_key k,
                eq_iff q.schema_id s,
                eq_iff f.service_key k,
                eq_iff f.schema_id s,
              )))
      ]

  -- What the loop opens.
  pub is_open-build_queries :
      (fs : List ProviderLevelFieldRecord) (added : List String) (qs : List ProviderQuery)
      → is_open (build_queries fs added qs)
        ≡ (is_open qs || (not (elem k added) && opt_eq (first_schema k fs) (some s)))
  unfolding build_queries is_open first_schema
  is_open-build_queries [] added qs = ground arith
  is_open-build_queries (f ∷ fs) added qs = elim (Bool-cases (elem f.service_key added)) [
    | inl e ↦
        let later = is_open-build_queries fs added (add_path f qs) in
        rw e (rw (later, is_open-add_path f qs) (ground (arith, e, eq_iff f.service_key k)))
    | inr e ↦
        let opened = qs ++ open_query f ∷ [] in
        let later = is_open-build_queries fs (added ++ f.service_key ∷ []) (add_path f opened) in
        rw e (
          rw
            (
              later,
              is_open-add_path f opened,
              is_open-append qs (open_query f ∷ []),
              elem-append k added (f.service_key ∷ []),
            )
            (elim (Bool-cases (f.service_key == k)) [
              | inl same ↦
                  let new : elem k added ≡ false =
                    subst (λ x. elem x added ≡ false) ((eq_iff _ _).0 same) e in
                  ground (arith, same, new)
              | inr differ ↦ ground (arith, differ)
            ]))
  ]

  -- Which paths the loop pushes.
  pub reaches-build_queries :
      (d : String) (ys : List String) (fs : List ProviderLevelFieldRecord) (added : List String)
      (qs : List ProviderQuery)
      → reaches d ys (build_queries fs added qs)
        ≡ (reaches d ys qs || (is_open (build_queries fs added qs) && asks k s d ys fs))
  unfolding build_queries asks
  reaches-build_queries d ys [] added qs = ground arith
  reaches-build_queries d ys (f ∷ fs) added qs = elim (Bool-cases (elem f.service_key added)) [
    | inl e ↦
        let later = reaches-build_queries d ys fs added (add_path f qs) in
        let pushed = reaches-add_path d ys f qs in
        let opens = is_open-build_queries fs added (add_path f qs) in
        let kept = is_open-add_path f qs in
        rw e (rw later (ground (arith, e, opens, kept, pushed, eq_iff f.service_key k)))
    | inr e ↦
        let opened = qs ++ open_query f ∷ [] in
        let keys = added ++ f.service_key ∷ [] in
        let later = reaches-build_queries d ys fs keys (add_path f opened) in
        let pushed = reaches-add_path d ys f opened in
        let opens = is_open-build_queries fs keys (add_path f opened) in
        let kept = is_open-add_path f opened in
        let new_paths = reaches-open_query d ys f qs in
        rw e (
          rw later (elim (Bool-cases (f.service_key == k)) [
            | inl same ↦
                let in_keys : elem k keys ≡ true =
                  rw (elem-append k added (f.service_key ∷ [])) (ground (arith, same)) in
                ground (arith, pushed, opens, kept, new_paths, in_keys)
            | inr differ ↦ ground (arith, pushed, new_paths, differ)
          ]))
  ]
