-- ===== src/Consent/Database.antt =====
-- What the consent service uses of GORM over the table consent_records: an interface to the
-- third-party library, with the documented behaviour that the service relies on.
use opendif_core.Base.{Bool, Option, String, false, if◌then◌else◌, none, some, true, ℕ, ◌==◌, ◌≡◌}
use opendif_core.Consent.Models.{ConsentRecord, Error, stamped}

-- The outcome of `First`: a row, `gorm.ErrRecordNotFound`, or another error.
pub data Lookup : Type 0 where
  found : ConsentRecord → Lookup
  missing failed : Lookup

-- A write answers `true` where its `Error` is nil. A function that `Transaction` runs answers
-- `none` for nil, and so does `Transaction`.
pub record ConsentDb : Type 1 where
  pub State : Type 0
  pub create : ConsentRecord → State → Bool × State
  pub save : ConsentRecord → State → Bool × State
  -- the time that `Save` reads, in that state, for the column updated_at
  pub save_time : State → ℕ
  pub first_by_id : String → State → Lookup
  pub latest_by_owner_id : (owner_id app_id : String) → State → Lookup
  pub latest_by_owner_email : (owner_email app_id : String) → State → Lookup
  pub transaction : (State → Option Error × State) → State → Option Error × State

-- the row that a `Save` of the record stores
abbrev pub saved : (db : ConsentDb) → db.State → ConsentRecord → ConsentRecord
saved db s r = stamped (db.save_time s) r

-- The table as rows under their primary key, and what each call does to it.
pub record IsTable (db : ConsentDb) (row : db.State → String → Option ConsentRecord) : Type 0 where
  -- a row stands under its own key
  pub row_key :
      (id : String) (s : db.State) (r : ConsentRecord) → row s id ≡ some r → r.consent_id ≡ id
  -- a query answers with a row that its conditions select
  pub first_row :
      (id : String) (s : db.State) (r : ConsentRecord)
      → db.first_by_id id s ≡ found r
      → row s id ≡ some r
  pub owner_id_row :
      (o a : String) (s : db.State) (r : ConsentRecord)
      → db.latest_by_owner_id o a s ≡ found r
      → (row s r.consent_id ≡ some r) × (r.owner_id ≡ o) × (r.app_id ≡ a)
  pub owner_email_row :
      (e a : String) (s : db.State) (r : ConsentRecord)
      → db.latest_by_owner_email e a s ≡ found r
      → (row s r.consent_id ≡ some r) × (r.owner_email ≡ e) × (r.app_id ≡ a)
  -- `Save` writes every column of the row with its key, updated_at with the current time whatever
  -- the record has there; a failed write changes nothing
  pub save_ok :
      (r : ConsentRecord) (s : db.State) (id : String)
      → (db.save r s).0 ≡ true
      → row (db.save r s).1 id ≡ (if r.consent_id == id then some (saved db s r) else row s id)
  pub save_refused :
      (r : ConsentRecord) (s : db.State) (id : String)
      → (db.save r s).0 ≡ false
      → row (db.save r s).1 id ≡ row s id
  -- `Create` adds a row under a key that no row has; the service gives it both times
  pub create_new :
      (r : ConsentRecord) (s : db.State) → (db.create r s).0 ≡ true → row s r.consent_id ≡ none
  pub create_ok :
      (r : ConsentRecord) (s : db.State) (id : String)
      → (db.create r s).0 ≡ true
      → row (db.create r s).1 id ≡ (if r.consent_id == id then some r else row s id)
  pub create_refused :
      (r : ConsentRecord) (s : db.State) (id : String)
      → (db.create r s).0 ≡ false
      → row (db.create r s).1 id ≡ row s id
  -- `Transaction` commits what a function that returned nil did, and answers nil only then;
  -- otherwise it rolls back
  pub commit :
      (f : db.State → Option Error × db.State) (s : db.State) (id : String)
      → (db.transaction f s).0 ≡ none
      → ((f s).0 ≡ none) × (row (db.transaction f s).1 id ≡ row (f s).1 id)
  pub rollback :
      (f : db.State → Option Error × db.State) (s : db.State) (id : String) (e : Error)
      → (db.transaction f s).0 ≡ some e
      → row (db.transaction f s).1 id ≡ row s id
