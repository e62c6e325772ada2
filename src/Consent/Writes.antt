-- ===== src/Consent/Writes.antt =====
-- The effect of a successful write on the table.
use opendif_core.Base.{Option, String, eq_refl, ne→eq_false, some, true, ◌≡◌, ◌≢◌}
use opendif_core.Consent.Database.{ConsentDb, IsTable, saved}
use opendif_core.Consent.Models.{ConsentRecord}

module _ (db : ConsentDb) (row : db.State → String → Option ConsentRecord) where
  -- `s'` is `s` but for the row with the key of `r`, which is `r`.
  pub record IsWritten (r : ConsentRecord) (s s' : db.State) : Type 0 where
    pub at_key : row s' r.consent_id ≡ some r
    pub elsewhere : (id : String) → r.consent_id ≢ id → row s' id ≡ row s id

module _ (db : ConsentDb) (row : db.State → String → Option ConsentRecord)
    (t : IsTable db row) where
  pub save-IsWritten :
      (r : ConsentRecord) (s : db.State)
      → (db.save r s).0 ≡ true
      → IsWritten db row (saved db s r) s (db.save r s).1
  save-IsWritten r s h = record {
    at_key = rw (t.save_ok r s r.consent_id h, eq_refl);
    elsewhere = λ id n. rw (t.save_ok r s id h, ne→eq_false r.consent_id id n);
  }

  pub create-IsWritten :
      (r : ConsentRecord) (s : db.State)
      → (db.create r s).0 ≡ true
      → IsWritten db row r s (db.create r s).1
  create-IsWritten r s h = record {
    at_key = rw (t.create_ok r s r.consent_id h, eq_refl);
    elsewhere = λ id n. rw (t.create_ok r s id h, ne→eq_false r.consent_id id n);
  }
