-- ===== src/Orchestration/Activated.antt =====
-- The table of schema versions over any sequence of calls.
use opendif_core.Base.{
  All, Bool-cases, List, Option, Option-cases, String, [], ap, arith, elem, eq_comm, eq_iff, false,
  inl, inr, map, none, opt_eq, refl, some, subst, sym, true, ℕ, ◌==◌, ◌||◌, ◌∙◌, ◌∷◌, ◌≡◌,
}
use opendif_core.Orchestration.Query.Asked.{IsUnique}
use opendif_core.Orchestration.Versions.{
  ActivateReplies, UnifiedSchema, activate_schema, activate_version, create_version, first_active,
  ids, insert_schema, is_valid_sdl, set_active, versions,
}

-- A call of the schema service, with what its statements fail with and what it makes up.
pub data SchemaCall : Type 0 where
  creates :
      Option String
      → (id : String) → (now db_now : ℕ) → (version sdl created_by : String) → SchemaCall
  activates : ActivateReplies → String → SchemaCall

module _ (checksum : String → String) where
  -- the table, and the version whose activation was the last to succeed
  unfoldable pub run_call :
      SchemaCall → List UnifiedSchema → Option String → List UnifiedSchema × Option String
  run_call (creates fails id now db_now version sdl by) rows active =
      ((create_version checksum fails id now db_now version sdl by rows).1, active)
  run_call (activates r version) rows active =
      let (failure, after) = activate_schema r version rows in
      (after, elim failure [ none ↦ some version | some e ↦ active ])

  unfoldable pub run_calls :
      List SchemaCall → List UnifiedSchema → Option String → List UnifiedSchema × Option String
  run_calls [] rows active = (rows, active)
  run_calls (c ∷ calls) rows active =
      let (after, now_active) = run_call c rows active in run_calls calls after now_active

-- The row is active just where it is of the version.
abbrev pub IsActiveFor : Option String → UnifiedSchema → Type 0
IsActiveFor active s = s.is_active ≡ opt_eq active (some s.version)

abbrev IsKnown : Option String → List UnifiedSchema → Type 0
IsKnown none rows = Unit
IsKnown (some v) rows = elem v (versions rows) ≡ true

abbrev IsConsistent : List UnifiedSchema → Option String → Type 0
IsConsistent rows active =
    All (IsActiveFor active) rows × IsKnown active rows × IsUnique (versions rows)

abbrev pub version_of : Option UnifiedSchema → Option String
version_of none = none
version_of (some s) = some s.version

first_active-version :
    (active : Option String) (rows : List UnifiedSchema)
    → All (IsActiveFor active) rows
    → IsKnown active rows
    → version_of (first_active rows) ≡ active
unfolding first_active
first_active-version none [] a k = refl
first_active-version none (s ∷ rows) (a, others) k = rw a (first_active-version none rows others k)
first_active-version (some v) [] a k = absurd (ground arith)
first_active-version (some v) (s ∷ rows) (a, others) k = elim (Bool-cases (s.version == v)) [
  | inl e ↦ rw (a, eq_comm v s.version, e) (ap some ((eq_iff s.version v).0 e))
  | inr e ↦
      rw (a, eq_comm v s.version, e)
        (first_active-version (some v) rows others (ground (arith, k, e)))
]

versions-activate_version :
    (v : String) (rows : List UnifiedSchema)
    → versions (activate_version v (map (set_active false) rows)) ≡ versions rows
unfolding activate_version
versions-activate_version v [] = refl
versions-activate_version v (s ∷ rows) =
    let later = versions-activate_version v rows in
    elim (Bool-cases (s.version == v)) [
      | inl e ↦ rw e (ap (λ vs. s.version ∷ vs) later)
      | inr e ↦ rw e (ap (λ vs. s.version ∷ vs) later)
    ]

activate_version-IsActiveFor :
    (v : String) (rows : List UnifiedSchema)
    → All (IsActiveFor (some v)) (activate_version v (map (set_active false) rows))
unfolding activate_version
activate_version-IsActiveFor v [] = tt
activate_version-IsActiveFor v (s ∷ rows) =
    let later = activate_version-IsActiveFor v rows in
    elim (Bool-cases (s.version == v)) [
      | inl e ↦ rw e (sym (eq_comm v s.version ∙ e), later)
      | inr e ↦ rw e (sym (eq_comm v s.version ∙ e), later)
    ]

activate_schema-IsConsistent :
    (r : ActivateReplies) (v : String) (rows : List UnifiedSchema) (active : Option String)
    → IsConsistent rows active
    → IsConsistent
        (activate_schema r v rows).1
        (elim (activate_schema r v rows).0 [ none ↦ some v | some e ↦ active ])
unfolding activate_schema
activate_schema-IsConsistent r v rows active h = elim (Option-cases r.begins) [
  | inr (e, b) ↦ rw (b, activate_schema) h
  | inl b ↦ elim (Option-cases r.deactivates) [
    | inr (e, d) ↦ rw (b, d, activate_schema) h
    | inl d ↦ elim (Option-cases r.activates) [
      | inr (e, a) ↦ rw (b, d, a, activate_schema) h
      | inl a ↦ elim (Option-cases r.affected) [
        | inr (e, f) ↦ rw (b, d, a, f, activate_schema) h
        | inl f ↦ elim (Bool-cases (elem v (versions rows))) [
          | inr absent_one ↦ rw (b, d, a, f, absent_one, activate_schema) h
          | inl there ↦ elim (Option-cases r.commits) [
            | inr (e, c) ↦ rw (b, d, a, f, there, c, activate_schema) h
            | inl c ↦
                rw (b, d, a, f, there, c, activate_schema)
                  (
                    activate_version-IsActiveFor v rows,
                    rw (versions-activate_version v rows) there,
                    rw (versions-activate_version v rows) h.2,
                  )
          ]
        ]
      ]
    ]
  ]
]

insert_schema-IsConsistent :
    (fails : Option String) (now : ℕ) (s : UnifiedSchema) (rows : List UnifiedSchema)
    (active : Option String)
    → s.is_active ≡ false
    → IsConsistent rows active
    → IsConsistent (insert_schema fails now s rows).1 active
unfolding insert_schema
insert_schema-IsConsistent (some e) now s rows active off h = h
insert_schema-IsConsistent none now s rows active off (a, k, u) =
    elim (Bool-cases (elem s.version (versions rows) || elem s.id (ids rows))) [
      | inl e ↦ rw e (a, k, u)
      | inr e ↦
          let new_version : elem s.version (versions rows) ≡ false = ground (arith, e) in
          rw e ((off ∙ sym (other active k new_version), a), still active _ k, (new_version, u))
    ]
  where
    other :
        (active : Option String)
        → IsKnown active rows
        → elem s.version (versions rows) ≡ false
        → opt_eq active (some s.version) ≡ false
    other none k n = refl
    other (some v) k n = elim (Bool-cases (v == s.version)) [
      | inl e ↦ absurd (
          ground
            (arith, subst (λ x. elem x (versions rows) ≡ true) ((eq_iff v s.version).0 e) k, n))
      | inr e ↦ e
    ]

    still :
        (active : Option String) (x : UnifiedSchema)
        → IsKnown active rows
        → IsKnown active (x ∷ rows)
    still none x k = tt
    still (some v) x k = ground (arith, k)

module _ (checksum : String → String) where
  run_call-IsConsistent :
      (c : SchemaCall) (rows : List UnifiedSchema) (active : Option String)
      → IsConsistent rows active
      → IsConsistent (run_call checksum c rows active).0 (run_call checksum c rows active).1
  unfolding run_call create_version
  run_call-IsConsistent (activates r v) rows active h =
      activate_schema-IsConsistent r v rows active h
  run_call-IsConsistent (creates fails id now db_now version sdl by) rows active h =
      elim (Bool-cases (is_valid_sdl sdl)) [
        | inr e ↦ rw (e, run_call, create_version) h
        | inl e ↦
            let s : UnifiedSchema = record {
              id = id;
              version = version;
              sdl = sdl;
              status = "inactive";
              description = "";
              created_at = now;
              updated_at = 0;
              created_by = by;
              checksum = checksum sdl;
              is_active = false;
            } in
            let kept = insert_schema-IsConsistent fails db_now s rows active refl h in
            rw (e, run_call, create_version)
              (elim (Option-cases (insert_schema fails db_now s rows).0) [
                | inl done_it ↦ rw done_it kept
                | inr (m, refused_row) ↦ rw refused_row kept
              ])
      ]

  run_calls-IsConsistent :
      (calls : List SchemaCall) (rows : List UnifiedSchema) (active : Option String)
      → IsConsistent rows active
      → IsConsistent
          (run_calls checksum calls rows active).0
          (run_calls checksum calls rows active).1
  unfolding run_calls
  run_calls-IsConsistent [] rows active h = h
  run_calls-IsConsistent (c ∷ calls) rows active h =
      run_calls-IsConsistent calls _ _ (run_call-IsConsistent c rows active h)

  -- After any sequence of calls of CreateSchema and ActivateSchema on an empty table, whichever of
  -- them fail, no version has two rows, a row is active just where it is of the version whose
  -- activation was the last to succeed, and that is the version that GetActiveSchema finds.
  pub run_calls-version_of :
      (calls : List SchemaCall)
      → IsUnique (map (λ s. s.version) (run_calls checksum calls [] none).0)
        × All
            (IsActiveFor (run_calls checksum calls [] none).1)
            (run_calls checksum calls [] none).0
        × (version_of (first_active (run_calls checksum calls [] none).0)
            ≡ (run_calls checksum calls [] none).1)
  run_calls-version_of calls =
      let (a, k, u) = run_calls-IsConsistent calls [] none (tt, tt, tt) in
      (u, a, first_active-version _ _ a k)
