-- ===== src/Policy/Deleted.antt =====
-- What CreatePolicyMetadata plans to delete.
use opendif_core.Base.{
  Bool-cases, Dict, List, Memᴰ, Option-cases, String, [], arith, elem, eq_iff, eq_refl, false, inl,
  inr, lookup, refl, some, subst, sym, true, ℕ, ◌+◌, ◌==◌, ◌||◌, ◌∙◌, ◌∷◌, ◌≡◌,
}
use opendif_core.Policy.Models.{
  PolicyMetadata, PolicyMetadataCreateRequest, PolicyMetadataCreateRequestRecord,
}
use opendif_core.Policy.Sync.{Work, ids_to_delete, index_existing, plan, process, process_all}
use opendif_core.Policy.Synced.{names, process_all-other}

-- the loop marks exactly the fields of the request
process_all-processed :
    (ids : ℕ → String) (now : ℕ) (schema_id : String) (i : ℕ)
    (rs : List PolicyMetadataCreateRequestRecord) (w : Work) (n : String)
    → elem n (process_all ids now schema_id i rs w).processed
      ≡ (elem n (names rs) || elem n w.processed)
unfolding process_all process
process_all-processed ids now schema_id i [] w n = refl
process_all-processed ids now schema_id i (r ∷ rs) w n =
    process_all-processed ids now schema_id (i + 1) rs (process (ids i) now schema_id r w) n
    ∙ elim (Option-cases (lookup r.field_name w.existing)) [
      | inl e ↦ rw (e, process) (ground arith)
      | inr (pm, e) ↦ rw (e, process) (ground arith)
    ]

ids_to_delete_complete :
    (processed : List String) (m : Dict PolicyMetadata) (n : String) (pm : PolicyMetadata)
    → lookup n m ≡ some pm
    → elem n processed ≡ false
    → elem pm.id (ids_to_delete processed m) ≡ true
unfolding ids_to_delete lookup
ids_to_delete_complete processed [] n pm e h = absurd (ground arith)
ids_to_delete_complete processed ((name, q) ∷ m) n pm e h = elim (Bool-cases (name == n)) [
  | inl same ↦
      let key_same : name ≡ n = (eq_iff _ _).0 same in
      let row_same : q ≡ pm = cc (rw same at e) in
      let unnamed : elem name processed ≡ false =
        subst (λ k. elem k processed ≡ false) (sym key_same) h in
      rw unnamed (rw row_same (simp eq_refl))
  | inr other ↦
      let later = ids_to_delete_complete processed m n pm (rw other at e) h in
      elim (Bool-cases (elem name processed)) [
        | inl a ↦ rw a later
        | inr a ↦ rw a (ground (arith, later))
      ]
]

ids_to_delete_sound :
    (processed : List String) (m : Dict PolicyMetadata) (id : String)
    → elem id (ids_to_delete processed m) ≡ true
    → (n : String) × (pm : PolicyMetadata) × Memᴰ (n, pm) m
      × (elem n processed ≡ false)
      × (pm.id ≡ id)
unfolding ids_to_delete
ids_to_delete_sound processed [] id h = absurd (ground arith)
ids_to_delete_sound processed ((name, q) ∷ m) id h = elim (Bool-cases (elem name processed)) [
  | inl a ↦
      let (n, pm, there, un, same) = ids_to_delete_sound processed m id (rw a at h) in
      (n, pm, Memᴰ.tail there, un, same)
  | inr a ↦ elim (Bool-cases (q.id == id)) [
    | inl b ↦ (name, q, Memᴰ.head refl, a, (eq_iff _ _).0 b)
    | inr b ↦
        let (n, pm, there, un, same) = ids_to_delete_sound processed m id (ground arith) in
        (n, pm, Memᴰ.tail there, un, same)
  ]
]

-- The plan deletes the metadata of each field that the query finds and the request does not name;
-- and each id that it deletes is that of an entry under a field that the request does not name.
pub plan_deletes :
    (ids : ℕ → String) (now : ℕ) (req : PolicyMetadataCreateRequest) (rows : List PolicyMetadata)
    → ((n : String) (pm : PolicyMetadata)
        → lookup n (index_existing rows []) ≡ some pm
        → elem n (names req.records) ≡ false
        → elem pm.id
            (ids_to_delete (plan ids now req rows).processed (plan ids now req rows).existing)
          ≡ true)
      × ((id : String)
          → elem id
              (ids_to_delete (plan ids now req rows).processed (plan ids now req rows).existing)
            ≡ true
          → (n : String) × (pm : PolicyMetadata) × Memᴰ (n, pm) (plan ids now req rows).existing
            × (elem n (names req.records) ≡ false)
            × (pm.id ≡ id))
unfolding plan
plan_deletes ids now req rows =
    let start : Work = record {
      existing = index_existing rows [];
      new_records = [];
      updated = [];
      processed = [];
    } in
    let marks = λ (n : String). process_all-processed ids now req.schema_id 0 req.records start n in
    (
      λ n pm e h.
          ids_to_delete_complete _ _ n pm
            (process_all-other now req.schema_id ids 0 req.records start n h ∙ e)
            (marks n ∙ (ground (arith, h))),
      λ id h.
          let (n, pm, there, un, same) = ids_to_delete_sound _ _ id h in
          (n, pm, there, ground (arith, marks n, un), same),
    )
