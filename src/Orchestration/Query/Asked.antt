-- ===== src/Orchestration/Query/Asked.antt =====
-- What BuildProviderLevelQuery asks each provider for.
use opendif_core.Base.{
  Bool-cases, List, Memᴰ, String, [], and_iff, ap, arith, elem, elem-append, eq_comm, eq_iff,
  eq_refl, false, inl, inr, map, opt_eq_iff, refl, some, subst, sym, true, ◌&&◌, ◌++◌, ◌==◌, ◌↔◌,
  ◌∙◌, ◌∷◌, ◌≡◌,
}
use opendif_core.Orchestration.Models.{ProviderLevelFieldRecord}
use opendif_core.Orchestration.Query.Built.{
  asks, first_schema, is_open, is_open-build_queries, reaches, reaches-build_queries,
}
use opendif_core.Orchestration.Query.Paths.{has_path}
use opendif_core.Orchestration.Query.Trees.{
  ProviderQuery, add_path, build_provider_level_query, build_queries, open_query,
}

abbrev keys : List ProviderQuery → List String
keys queries = map (λ q. q.service_key) queries

-- No text is twice in the list.
abbrev pub IsUnique : List String → Type 0
IsUnique [] = Unit
IsUnique (x ∷ xs) = (elem x xs ≡ false) × IsUnique xs

IsUnique-append :
    (xs : List String) (x : String) → IsUnique xs → elem x xs ≡ false → IsUnique (xs ++ x ∷ [])
IsUnique-append [] x u h = (refl, tt)
IsUnique-append (y ∷ ys) x u h = (
  rw (elem-append y ys (x ∷ [])) (ground (arith, u.0, h, eq_comm x y)),
  IsUnique-append ys x u.1 (ground (arith, h)),
)

keys-add_path :
    (f : ProviderLevelFieldRecord) (qs : List ProviderQuery) → keys (add_path f qs) ≡ keys qs
unfolding add_path
keys-add_path f [] = refl
keys-add_path f (q ∷ qs) =
    let later = keys-add_path f qs in
    elim (Bool-cases (q.service_key == f.service_key && q.schema_id == f.schema_id)) [
      | inl e ↦ rw e refl
      | inr e ↦ rw e (ap (λ ks. q.service_key ∷ ks) later)
    ]

keys-open_query :
    (f : ProviderLevelFieldRecord) (qs : List ProviderQuery)
    → keys (qs ++ open_query f ∷ []) ≡ keys qs ++ f.service_key ∷ []
keys-open_query f [] = refl
keys-open_query f (q ∷ qs) = ap (λ ks. q.service_key ∷ ks) (keys-open_query f qs)

build_queries-IsUnique :
    (fs : List ProviderLevelFieldRecord) (added : List String) (qs : List ProviderQuery)
    → keys qs ≡ added
    → IsUnique added
    → IsUnique (keys (build_queries fs added qs))
unfolding build_queries
build_queries-IsUnique [] added qs same u = rw same u
build_queries-IsUnique (f ∷ fs) added qs same u = elim (Bool-cases (elem f.service_key added)) [
  | inl e ↦ rw e (build_queries-IsUnique fs added (add_path f qs) (keys-add_path f qs ∙ same) u)
  | inr e ↦ rw e (
      build_queries-IsUnique fs _ (add_path f (qs ++ open_query f ∷ []))
        (keys-add_path f _ ∙ keys-open_query f qs ∙ ap (λ ks. ks ++ f.service_key ∷ []) same)
        (IsUnique-append added f.service_key u e))
]

Memᴰ-is_open :
    {q : ProviderQuery} (qs : List ProviderQuery)
    → Memᴰ q qs
    → is_open q.service_key q.schema_id qs ≡ true
unfolding is_open
Memᴰ-is_open [] m = elim m [ ]
Memᴰ-is_open {q} (x ∷ qs) (Memᴰ.head e) =
    rw e (rw (eq_refl x.service_key, eq_refl x.schema_id) refl)
Memᴰ-is_open (x ∷ qs) (Memᴰ.tail m) = let later = Memᴰ-is_open qs m in ground (arith, later)

Memᴰ-elem :
    {q : ProviderQuery} (qs : List ProviderQuery) → Memᴰ q qs → elem q.service_key (keys qs) ≡ true
Memᴰ-elem [] m = elim m [ ]
Memᴰ-elem (x ∷ qs) (Memᴰ.head e) = rw e (rw (eq_refl x.service_key) refl)
Memᴰ-elem (x ∷ qs) (Memᴰ.tail m) = let later = Memᴰ-elem qs m in ground (arith, later)

reaches-has_path :
    {q : ProviderQuery} (d : String) (ys : List String) (qs : List ProviderQuery)
    → Memᴰ q qs
    → IsUnique (keys qs)
    → reaches q.service_key q.schema_id d ys qs ≡ has_path d ys q.selections
unfolding reaches
reaches-has_path d ys [] m u = elim m [ ]
reaches-has_path d ys (x ∷ qs) (Memᴰ.head e) u =
    rw e (rw (eq_refl x.service_key, eq_refl x.schema_id) refl)
reaches-has_path {q} d ys (x ∷ qs) (Memᴰ.tail m) u =
    let later = reaches-has_path d ys qs m u.1 in
    let there = Memᴰ-elem qs m in
    let other : (x.service_key == q.service_key) ≡ false =
      elim (Bool-cases (x.service_key == q.service_key)) [
        | inl same ↦
            let not_there = subst (λ k. elem k (keys qs) ≡ false) ((eq_iff _ _).0 same) u.0 in
            absurd (ground (arith, there, not_there))
        | inr differ ↦ differ
      ] in
    rw other later

is_open-Memᴰ :
    (k s : String) (qs : List ProviderQuery)
    → is_open k s qs ≡ true
    → (q : ProviderQuery) × Memᴰ q qs × (q.service_key ≡ k) × (q.schema_id ≡ s)
unfolding is_open
is_open-Memᴰ k s [] h = absurd (ground arith)
is_open-Memᴰ k s (q ∷ qs) h = elim (Bool-cases (q.service_key == k && q.schema_id == s)) [
  | inl e ↦
      let (a, b) = (and_iff _ _).0 e in (q, Memᴰ.head refl, (eq_iff _ _).0 a, (eq_iff _ _).0 b)
  | inr e ↦ let (r, m, a, b) = is_open-Memᴰ k s qs (ground arith) in (r, Memᴰ.tail m, a, b)
]

-- No two queries of BuildProviderLevelQuery are for the same service key.
pub build_provider_level_query-IsUnique :
    (fields : List ProviderLevelFieldRecord)
    → IsUnique (map (λ q. q.service_key) (build_provider_level_query fields))
build_provider_level_query-IsUnique fields = build_queries-IsUnique fields [] [] refl tt

-- A query of BuildProviderLevelQuery has a field at a path just where the path of a field of its
-- service key and schema id starts with it.
pub build_provider_level_query-asks :
    (fields : List ProviderLevelFieldRecord) (q : ProviderQuery) (d : String) (ys : List String)
    → Memᴰ q (build_provider_level_query fields)
    → has_path d ys q.selections ≡ asks q.service_key q.schema_id d ys fields
unfolding reaches
build_provider_level_query-asks fields q d ys m =
    let whole = reaches-build_queries q.service_key q.schema_id d ys fields [] [] in
    let opened = Memᴰ-is_open (build_provider_level_query fields) m in
    let reached = reaches-has_path d ys _ m (build_provider_level_query-IsUnique fields) in
    ground (arith, whole, opened, reached)

-- BuildProviderLevelQuery makes a query for a service key and a schema just where the first field
-- of the service key has the schema.
pub build_provider_level_query-first_schema :
    (fields : List ProviderLevelFieldRecord) (k s : String)
    → ((q : ProviderQuery) × Memᴰ q (build_provider_level_query fields)
        × (q.service_key ≡ k)
        × (q.schema_id ≡ s))
      ↔ (first_schema k fields ≡ some s)
unfolding is_open
build_provider_level_query-first_schema fields k s = (
  λ (q, m, a, b).
      rw (sym a, sym b)
        ((opt_eq_iff _ _).0
          (sym (is_open-build_queries q.service_key q.schema_id fields [] []) ∙ Memᴰ-is_open _ m)),
  λ e. is_open-Memᴰ k s _ (is_open-build_queries k s fields [] [] ∙ (opt_eq_iff _ _).1 e),
)
