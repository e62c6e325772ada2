-- ===== src/Policy/Handled.antt =====
-- What a decision that the handler of the policy decision point sends means for the table.
use opendif_core.Base.{
  Bool, Bool-cases, List, Option, Option-cases, Result, Result-cases, String, [], err, false,
  if◌then◌else◌, inl, inr, is_empty, none, ok, some, subst, true, ℕ, ◌==◌, ◌∷◌, ◌≡◌,
}
use opendif_core.Policy.AllowLists.{AllowListError}
use opendif_core.Policy.Database.{PolicyDb}
use opendif_core.Policy.Decided.{EachRow, decide_sound}
use opendif_core.Policy.Decision.{decide, get_policy_decision, schema_ids}
use opendif_core.Policy.Handler.{
  PolicyReadings, PolicyReply, PolicyRequest, answer_allowed, answer_created, answer_decision,
  decide_checked, decision, handle_create, handle_decide, handle_policy_service, handle_update,
  route,
}
use opendif_core.Policy.Index.{AreClear}
use opendif_core.Policy.Models.{
  AllowListUpdateResponseRecord, PolicyDecisionRequest, PolicyDecisionResponse, PolicyMetadata,
}
use opendif_core.Policy.Verdicts.{IsFree}

module _ (db : PolicyDb) (add_date : ℕ → (years months : ℕ) → ℕ)
    (trim_space : String → String) where
  -- the rows of the body's request let its application read each of its fields, of which there
  -- is one
  pub record IsReadable (rd : PolicyReadings) (rq : PolicyRequest) (s : db.State) : Type 0 where
    pub request : PolicyDecisionRequest
    pub rows : List PolicyMetadata
    pub decoded : rq.decide_body ≡ some request
    pub asks : is_empty request.required_fields ≡ false
    pub selected : db.rows_of_schemas (schema_ids request.required_fields) s ≡ some rows
    pub free : EachRow rows (IsFree request.application_id) rd.field_times 0 request.required_fields

  -- no schema id of the body's request or of the rows selected for it has a colon
  abbrev pub HasClearIds : PolicyRequest → db.State → Type 0
  HasClearIds rq s =
      (req : PolicyDecisionRequest) (rows : List PolicyMetadata)
      → rq.decide_body ≡ some req
      → db.rows_of_schemas (schema_ids req.required_fields) s ≡ some rows
      → AreClear rows req.required_fields

  -- the decision lets the application read at once
  abbrev pub LetsRead : PolicyDecisionResponse → Type 0
  LetsRead resp =
      (resp.app_authorized ≡ true)
      × (resp.app_access_expired ≡ false)
      × (resp.app_requires_owner_consent ≡ false)

  abbrev pub Decides : PolicyReadings → PolicyRequest → db.State → PolicyReply → Type 0
  Decides rd rq s (ok (code, decision resp)) = LetsRead resp → IsReadable rd rq s
  Decides rd rq s _ = Unit

  get_policy_decision-Decides :
      (rd : PolicyReadings) (rq : PolicyRequest) (req : PolicyDecisionRequest) (s : db.State)
      → HasClearIds rq s
      → rq.decide_body ≡ some req
      → is_empty req.required_fields ≡ false
      → Decides rd rq s (answer_decision (get_policy_decision db rd.field_times req s))
  unfolding get_policy_decision
  get_policy_decision-Decides rd rq req s clear b n =
      elim (Option-cases (db.rows_of_schemas (schema_ids req.required_fields) s)) [
        | inl q ↦ rw (q, get_policy_decision) tt
        | inr (rows, q) ↦ elim (Result-cases (decide rows rd.field_times req)) [
          | inl (x, f) ↦ rw (q, f, get_policy_decision) tt
          | inr (resp, f) ↦
              rw (q, f, get_policy_decision)
                (λ h. record {
                  request = req;
                  rows = rows;
                  decoded = b;
                  asks = n;
                  selected = q;
                  free = decide_sound rows rd.field_times req (clear req rows b q) f h.0 h.1 h.2;
                })
        ]
      ]

  decide_checked-Decides :
      (rd : PolicyReadings) (rq : PolicyRequest) (req : PolicyDecisionRequest) (s : db.State)
      → HasClearIds rq s
      → rq.decide_body ≡ some req
      → Decides rd rq s (decide_checked db add_date trim_space rd req s)
  unfolding decide_checked
  decide_checked-Decides rd rq req s clear b = elim (Bool-cases (req.application_id == "")) [
    | inl a ↦ rw (a, decide_checked) tt
    | inr a ↦ elim (Bool-cases (is_empty req.required_fields)) [
      | inl n ↦ rw (a, n, decide_checked) tt
      | inr n ↦ rw (a, n, decide_checked) (get_policy_decision-Decides rd rq req s clear b n)
    ]
  ]

  answer_created-Decides :
      (rd : PolicyReadings) (rq : PolicyRequest) (s : db.State)
      (done : Option (List PolicyMetadata) × db.State)
      → Decides rd rq s (answer_created done).0
  answer_created-Decides rd rq s (none, s') = tt
  answer_created-Decides rd rq s (some records, s') = tt

  answer_allowed-Decides :
      (rd : PolicyReadings) (rq : PolicyRequest) (s : db.State)
      (done : Result AllowListError (List AllowListUpdateResponseRecord) × db.State)
      → Decides rd rq s (answer_allowed done).0
  answer_allowed-Decides rd rq s (err e, s') = tt
  answer_allowed-Decides rd rq s (ok records, s') = tt

  handle_create-Decides :
      (rd : PolicyReadings) (rq : PolicyRequest) (s : db.State)
      → Decides rd rq s (handle_create db add_date trim_space rd rq s).0
  unfolding handle_create
  handle_create-Decides rd rq s = elim (Option-cases rq.metadata_body) [
    | inl b ↦ simp (b, handle_create) tt
    | inr (req, b) ↦ elim (Bool-cases (trim_space req.schema_id == "")) [
      | inl e ↦ simp (b, e, handle_create) tt
      | inr e ↦ simp (b, e, handle_create) (answer_created-Decides rd rq s _)
    ]
  ]

  handle_update-Decides :
      (rd : PolicyReadings) (rq : PolicyRequest) (s : db.State)
      → Decides rd rq s (handle_update db add_date trim_space rd rq s).0
  unfolding handle_update
  handle_update-Decides rd rq s = elim (Option-cases rq.allow_list_body) [
    | inl b ↦ simp (b, handle_update) tt
    | inr (req, b) ↦ simp (b, handle_update) (answer_allowed-Decides rd rq s _)
  ]

  handle_decide-Decides :
      (rd : PolicyReadings) (rq : PolicyRequest) (s : db.State)
      → HasClearIds rq s
      → Decides rd rq s (handle_decide db add_date trim_space rd rq s)
  unfolding handle_decide
  handle_decide-Decides rd rq s clear = elim (Option-cases rq.decide_body) [
    | inl b ↦ simp (b, handle_decide) tt
    | inr (req, b) ↦ simp (b, handle_decide) (decide_checked-Decides rd rq req s clear b)
  ]

  if-Decides :
      (rd : PolicyReadings) (rq : PolicyRequest) (s : db.State) (b : Bool)
      (x y : PolicyReply × db.State)
      → Decides rd rq s x.0
      → Decides rd rq s y.0
      → Decides rd rq s (if b then x else y).0
  if-Decides rd rq s true x y p q = p
  if-Decides rd rq s false x y p q = q

  route-Decides :
      (rd : PolicyReadings) (rq : PolicyRequest) (part : String) (s : db.State)
      → HasClearIds rq s
      → Decides rd rq s (route db add_date trim_space rd rq part s).0
  unfolding route
  route-Decides rd rq part s clear =
      if-Decides rd rq s (part == "metadata") _ _
        (if-Decides rd rq s (rq.method == "POST") _ _ (handle_create-Decides rd rq s) tt)
        (if-Decides rd rq s (part == "update-allowlist") _ _
          (if-Decides rd rq s (rq.method == "POST") _ _ (handle_update-Decides rd rq s) tt)
          (if-Decides rd rq s (part == "decide") _ _
            (if-Decides rd rq s (rq.method == "POST") _ _ (handle_decide-Decides rd rq s clear) tt)
            tt))

  handle_policy_service-Decides :
      (rd : PolicyReadings) (rq : PolicyRequest) (s : db.State)
      → HasClearIds rq s
      → Decides rd rq s (handle_policy_service db add_date trim_space rd rq s).0
  unfolding handle_policy_service
  handle_policy_service-Decides rd rq s clear = of_parts rq.parts
    where
      of_parts :
          (parts : List String)
          → Decides rd rq s
              (elim parts as (λ x. PolicyReply × db.State) [
                | [] ↦ (err 404, s)
                | part ∷ rest ↦
                    if is_empty rest
                    then route db add_date trim_space rd rq part s
                    else (err 404, s)
              ]).0
      of_parts [] = tt
      of_parts (part ∷ rest) =
          if-Decides rd rq s (is_empty rest) _ _ (route-Decides rd rq part s clear) tt

  IsReadable-reply :
      (rd : PolicyReadings) (rq : PolicyRequest) (s : db.State) (code : ℕ)
      (resp : PolicyDecisionResponse) (reply : PolicyReply)
      → reply ≡ ok (code, decision resp)
      → Decides rd rq s reply
      → LetsRead resp
      → IsReadable rd rq s
  IsReadable-reply rd rq s code resp reply e d = subst (Decides rd rq s) e d

  -- Where handlePolicyService replies with a decision that lets the application read at once
  -- (authorized, not expired, no consent needed), the request's body asks for at least one
  -- field, and each has a row of its schema and name, among those of the table, whose allow list
  -- has the application with an entry still running at the clock's reading for the field, and
  -- the field is its owner's own or not restricted. No schema id holds a colon.
  pub handle_policy_service-IsReadable :
      (rd : PolicyReadings) (rq : PolicyRequest) (s : db.State) {code : ℕ}
      {resp : PolicyDecisionResponse}
      → HasClearIds rq s
      → (handle_policy_service db add_date trim_space rd rq s).0 ≡ ok (code, decision resp)
      → LetsRead resp
      → IsReadable rd rq s
  handle_policy_service-IsReadable rd rq s {code} {resp} clear e =
      IsReadable-reply rd rq s code resp _ e (handle_policy_service-Decides rd rq s clear)
