-- ===== src/Consent/Lifecycle.antt =====
-- The life of one row of consent_records, as a relation on what the table holds under its key.
use opendif_core.Base.{
  Bool-cases, Option, String, eq_iff, inl, inr, none, refl, some, true, ℕ, ◌==◌, ◌≡◌, ◌⊎◌,
}
use opendif_core.Consent.Database.{ConsentDb, IsTable, saved}
use opendif_core.Consent.Models.{
  ConsentRecord, is_active, stamped, status_approved, status_expired, status_pending,
  status_rejected, status_revoked,
}
use opendif_core.Consent.Updates.{approved, rejected, revoked}

-- One write of the service; `at` is the time that the save of a row stores as its last update.
pub data Change : Option ConsentRecord → Option ConsentRecord → Type 0 where
  arise :
      (r : ConsentRecord) (deadline : ℕ)
      → r.status ≡ status_pending
      → r.pending_expires_at ≡ some deadline
      → r.grant_expires_at ≡ none
      → Change none (some r)
  expire :
      (r : ConsentRecord) (at : ℕ)
      → is_active r.status ≡ true
      → Change (some r) (some (stamped at (record r { status = status_expired })))
  approve :
      (r : ConsentRecord) (now : ℕ) (by : String) (at : ℕ)
      → Change (some r) (some (stamped at (approved now by r)))
  reject :
      (r : ConsentRecord) (now : ℕ) (by : String) (at : ℕ)
      → Change (some r) (some (stamped at (rejected now by r)))
  revoke :
      (r : ConsentRecord) (now : ℕ) (by : String) (at : ℕ)
      → is_active r.status ≡ true
      → Change (some r) (some (stamped at (revoked now by r)))

-- Any number of writes.
pub data Changes (o : Option ConsentRecord) : Option ConsentRecord → Type 0 where
  here : Changes o o
  next : {p q : Option ConsentRecord} → Changes o p → Change p q → Changes o q

pub Changes-trans : {o p q : Option ConsentRecord} → Changes o p → Changes p q → Changes o q
Changes-trans a here = a
Changes-trans a (next b c) = next (Changes-trans a b) c

-- What holds of every row: a status of models/constants.go; a pending row has a deadline, an
-- approved one the end of its grant, and no row has both.
pub data IsWellFormed (r : ConsentRecord) : Type 0 where
  awaiting :
      r.status ≡ status_pending
      → (d : ℕ) → r.pending_expires_at ≡ some d
      → r.grant_expires_at ≡ none
      → IsWellFormed r
  granted :
      r.status ≡ status_approved
      → (d : ℕ) → r.grant_expires_at ≡ some d
      → r.pending_expires_at ≡ none
      → IsWellFormed r
  ended :
      (r.status ≡ status_rejected) ⊎ ((r.status ≡ status_expired) ⊎ (r.status ≡ status_revoked))
      → (r.pending_expires_at ≡ none) ⊎ (r.grant_expires_at ≡ none)
      → IsWellFormed r

abbrev pub IsWellFormedRow : Option ConsentRecord → Type 0
IsWellFormedRow none = Unit
IsWellFormedRow (some r) = IsWellFormed r

-- No row has both times set.
pub one_deadline :
    (r : ConsentRecord)
    → IsWellFormed r
    → (r.pending_expires_at ≡ none) ⊎ (r.grant_expires_at ≡ none)
one_deadline r (awaiting s d p g) = inr g
one_deadline r (granted s d g p) = inl p
one_deadline r (ended s o) = o

Change-IsWellFormed :
    {o p : Option ConsentRecord} → Change o p → IsWellFormedRow o → IsWellFormedRow p
Change-IsWellFormed (arise r d s p g) w = awaiting s d p g
Change-IsWellFormed (expire r at a) w = ended (inr (inl refl)) (one_deadline r w)
Change-IsWellFormed (approve r now by at) w = granted refl _ refl refl
Change-IsWellFormed (reject r now by at) w = ended (inl refl) (inl refl)
Change-IsWellFormed (revoke r now by at a) w = ended (inr (inr refl)) (one_deadline r w)

pub Changes-IsWellFormed :
    {o p : Option ConsentRecord} → Changes o p → IsWellFormedRow o → IsWellFormedRow p
Changes-IsWellFormed here w = w
Changes-IsWellFormed (next a c) w = Change-IsWellFormed c (Changes-IsWellFormed a w)

module _ (db : ConsentDb) (row : db.State → String → Option ConsentRecord)
    (t : IsTable db row) where
  -- A save that changes a stored row, whether or not the database accepts it.
  pub save-Changes :
      (r r' : ConsentRecord) (s : db.State)
      → row s r.consent_id ≡ some r
      → r'.consent_id ≡ r.consent_id
      → Change (some r) (some (saved db s r'))
      → (id : String) → Changes (row s id) (row (db.save r' s).1 id)
  save-Changes r r' s there key c id = elim (Bool-cases (db.save r' s).0) [
    | inr refused ↦ simp (t.save_refused r' s id refused) here
    | inl written ↦ elim (Bool-cases (r'.consent_id == id)) [
      | inl same ↦
          let at_id : row s id ≡ some r = cc (there, key, (eq_iff r'.consent_id id).0 same) in
          simp (t.save_ok r' s id written, same, at_id) (next here c)
      | inr other ↦ simp (t.save_ok r' s id written, other) here
    ]
  ]

  pub create-Changes :
      (r : ConsentRecord) (deadline : ℕ) (s : db.State)
      → r.status ≡ status_pending
      → r.pending_expires_at ≡ some deadline
      → r.grant_expires_at ≡ none
      → (id : String) → Changes (row s id) (row (db.create r s).1 id)
  create-Changes r d s st p g id = elim (Bool-cases (db.create r s).0) [
    | inr refused ↦ simp (t.create_refused r s id refused) here
    | inl written ↦ elim (Bool-cases (r.consent_id == id)) [
      | inl same ↦
          let at_id : row s id ≡ none =
            cc (t.create_new r s written, (eq_iff r.consent_id id).0 same) in
          simp (t.create_ok r s id written, same, at_id) (next here (arise r d st p g))
      | inr other ↦ simp (t.create_ok r s id written, other) here
    ]
  ]
