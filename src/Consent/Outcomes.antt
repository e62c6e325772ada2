-- ===== src/Consent/Outcomes.antt =====
-- What the answer of an operation that rewrites one row means for the table.
use opendif_core.Base.{
  Bool-cases, Option, String, arith, if◌then◌else◌, inl, inr, none, some, ◌∙◌, ◌≡◌, ◌≢◌,
}
use opendif_core.Consent.Database.{ConsentDb, IsTable, found, saved}
use opendif_core.Consent.Models.{ConsentRecord, Error}
use opendif_core.Consent.Writes.{save-IsWritten}

module _ (db : ConsentDb) (parse_uuid : String → Option String)
    (row : db.State → String → Option ConsentRecord) where
  -- From `s` to `s'` the row of the id that `text` stands for, and it alone, goes from a record
  -- of which `P` holds to its image under `f`, as a save in `s` stores it.
  pub record IsRewritten (P : ConsentRecord → Type 0) (f : ConsentRecord → ConsentRecord)
      (text : String) (s s' : db.State) : Type 0 where
    pub old : ConsentRecord
    pub parsed : parse_uuid text ≡ some old.consent_id
    pub was : row s old.consent_id ≡ some old
    pub held : P old
    pub now_is : row s' old.consent_id ≡ some (saved db s (f old))
    pub elsewhere : (id : String) → old.consent_id ≢ id → row s' id ≡ row s id

  -- nil is a rewrite, and an error leaves every row as it was
  abbrev pub Outcome :
      (ConsentRecord → Type 0)
      → (ConsentRecord → ConsentRecord)
      → String
      → db.State
      → Option Error × db.State
      → Type 0
  Outcome P f text s (none, s') = IsRewritten P f text s s'
  Outcome P f text s (some e, s') = (id : String) → row s' id ≡ row s id

module _ (db : ConsentDb) (parse_uuid : String → Option String)
    (row : db.State → String → Option ConsentRecord) (t : IsTable db row) where
  pub save-Outcome :
      (P : ConsentRecord → Type 0) (f : ConsentRecord → ConsentRecord) (text u : String)
      (s : db.State) (r : ConsentRecord) (e : Error)
      → parse_uuid text ≡ some u
      → db.first_by_id u s ≡ found r
      → (f r).consent_id ≡ r.consent_id
      → P r
      → Outcome db parse_uuid row P f text s
          (if (db.save (f r) s).0 then none else some e, (db.save (f r) s).1)
  save-Outcome P f text u s r e p q key h = elim (Bool-cases (db.save (f r) s).0) [
    | inr refused ↦ rw refused (λ id. t.save_refused (f r) s id refused)
    | inl written ↦
        let there = t.first_row u s r q in
        let is_u = t.row_key u s r there in
        let w = save-IsWritten db row t (f r) s written in
        rw written (record {
          old = r;
          parsed = simp is_u p;
          was = simp is_u there;
          held = h;
          now_is = simp (← key) w.at_key;
          elsewhere = λ id n. w.elsewhere id (simp key n);
        })
  ]

  -- a rewrite, read in a state with the same rows
  IsRewritten-same :
      (P : ConsentRecord → Type 0) (f : ConsentRecord → ConsentRecord) (text : String)
      (s u v : db.State)
      → ((id : String) → row v id ≡ row u id)
      → IsRewritten db parse_uuid row P f text s u
      → IsRewritten db parse_uuid row P f text s v
  IsRewritten-same P f text s u v same w = record {
    old = w.old;
    parsed = w.parsed;
    was = w.was;
    held = w.held;
    now_is = same w.old.consent_id ∙ w.now_is;
    elsewhere = λ id n. same id ∙ w.elsewhere id n;
  }

  Outcome-none :
      (P : ConsentRecord → Type 0) (f : ConsentRecord → ConsentRecord) (text : String)
      (s : db.State) (o : Option Error) (s' : db.State)
      → o ≡ none
      → Outcome db parse_uuid row P f text s (o, s')
      → IsRewritten db parse_uuid row P f text s s'
  Outcome-none P f text s none s' e w = w
  Outcome-none P f text s (some x) s' e w = absurd (ground arith)

  pub transaction-Outcome :
      (P : ConsentRecord → Type 0) (f : ConsentRecord → ConsentRecord) (text : String)
      (g : db.State → Option Error × db.State) (s : db.State)
      → Outcome db parse_uuid row P f text s (g s)
      → (o : Option Error) → (db.transaction g s).0 ≡ o
      → Outcome db parse_uuid row P f text s (o, (db.transaction g s).1)
  transaction-Outcome P f text g s w (some x) e = λ id. t.rollback g s id x e
  transaction-Outcome P f text g s w none e =
      IsRewritten-same P f text s (g s).1 _ (λ id. (t.commit g s id e).1)
        (Outcome-none P f text s (g s).0 (g s).1 (t.commit g s "" e).0 w)
