-- ===== src/Consent/Memory.antt =====
-- A database in memory that has the documented behaviour of Consent/Database.antt, for tests:
-- the table as a list of records.
use opendif_core.Base.{
  Bool, Bool-cases, List, Option, Option-cases, String, [], and_iff, arith, eq_iff, false,
  if◌then◌else◌, inl, inr, ltb, none, refl, some, true, ℕ, ◌&&◌, ◌==◌, ◌∷◌, ◌≡◌,
}
use opendif_core.Consent.Database.{ConsentDb, IsTable, Lookup, failed, found, missing}
use opendif_core.Consent.Models.{ConsentRecord, Error, stamped}

abbrev pub Table : Type 0
Table = List ConsentRecord

unfoldable pub find : Table → String → Option ConsentRecord
find [] id = none
find (r ∷ rs) id = if r.consent_id == id then some r else find rs id

-- Save: an update of the row with the key, or a new row
unfoldable pub put : ConsentRecord → Table → Table
put r [] = r ∷ []
put r (q ∷ qs) = if q.consent_id == r.consent_id then r ∷ qs else q ∷ put r qs

unfoldable pub add : ConsentRecord → Table → Bool × Table
add r s = elim (find s r.consent_id) [ none ↦ (true, put r s) | some q ↦ (false, s) ]

unfoldable pub first : String → Table → Lookup
first id s = elim (find s id) [ none ↦ missing | some r ↦ found r ]

-- the key of the newest row that the test selects
pub newest : (ConsentRecord → Bool) → Option ConsentRecord → Table → Option ConsentRecord
newest p best [] = best
newest p none (r ∷ rs) = newest p (if p r then some r else none) rs
newest p (some b) (r ∷ rs) =
    newest p (if p r && ltb b.created_at r.created_at then some r else some b) rs

pub checked : (ConsentRecord → Bool) → Option ConsentRecord → Lookup
checked p none = failed
checked p (some r) = if p r then found r else failed

unfoldable pub latest : (ConsentRecord → Bool) → Table → Lookup
latest p s = elim (newest p none s) [ none ↦ missing | some r ↦ checked p (find s r.consent_id) ]

abbrev pub owns : String → String → ConsentRecord → Bool
owns o a r = r.owner_id == o && r.app_id == a

abbrev pub mails : String → String → ConsentRecord → Bool
mails e a r = r.owner_email == e && r.app_id == a

unfoldable pub attempt : (Table → Option Error × Table) → Table → Option Error × Table
attempt f s = let (e, s') = f s in elim e [ none ↦ (none, s') | some x ↦ (some x, s) ]

-- the time of every save
abbrev pub memory_time : ℕ
memory_time = 9

abbrev pub memory : ConsentDb
memory = record {
  State = Table;
  create = add;
  save = λ r s. (true, put (stamped memory_time r) s);
  save_time = λ s. memory_time;
  first_by_id = first;
  latest_by_owner_id = λ o a. latest (owns o a);
  latest_by_owner_email = λ e a. latest (mails e a);
  transaction = attempt;
}

find-key : (id : String) (s : Table) (r : ConsentRecord) → find s id ≡ some r → r.consent_id ≡ id
unfolding find
find-key id [] r h = absurd (ground arith)
find-key id (q ∷ qs) r h = elim (Bool-cases (q.consent_id == id)) [
  | inl same ↦
      let e : some q ≡ some r = rw same at h in ground (arith, (eq_iff q.consent_id id).0 same)
  | inr other ↦ find-key id qs r (rw other at h)
]

find-put :
    (r : ConsentRecord) (s : Table) (id : String)
    → find (put r s) id ≡ (if r.consent_id == id then some r else find s id)
unfolding find put
find-put r [] id = refl
find-put r (q ∷ qs) id = ground (
  arith,
  find-put r qs id,
  eq_iff q.consent_id id,
  eq_iff q.consent_id r.consent_id,
  eq_iff r.consent_id id,
)

first-find :
    (id : String) (s : Table) (r : ConsentRecord) → first id s ≡ found r → find s id ≡ some r
unfolding first
first-find id s r h = ground arith

add-none : (r : ConsentRecord) (s : Table) → (add r s).0 ≡ true → find s r.consent_id ≡ none
unfolding add
add-none r s h = ground arith

add-find :
    (r : ConsentRecord) (s : Table) (id : String)
    → (add r s).0 ≡ true
    → find (add r s).1 id ≡ (if r.consent_id == id then some r else find s id)
unfolding add
add-find r s id h = ground (arith, find-put r s id)

add-kept :
    (r : ConsentRecord) (s : Table) (id : String)
    → (add r s).0 ≡ false
    → find (add r s).1 id ≡ find s id
unfolding add
add-kept r s id h = ground arith

checked-find :
    (p : ConsentRecord → Bool) (o : Option ConsentRecord) (r : ConsentRecord)
    → checked p o ≡ found r
    → (o ≡ some r) × (p r ≡ true)
unfolding checked
checked-find p none r h = absurd (ground arith)
checked-find p (some q) r h = ground arith

latest-find :
    (p : ConsentRecord → Bool) (s : Table) (r : ConsentRecord)
    → latest p s ≡ found r
    → (find s r.consent_id ≡ some r) × (p r ≡ true)
unfolding latest
latest-find p s r h = elim (Option-cases (newest p none s)) [
  | inl nothing ↦ absurd (ground arith)
  | inr (q, e) ↦
      let c = checked-find p (find s q.consent_id) r (rw (e, latest) at h) in
      (simp (find-key q.consent_id s r c.0) c.0, c.1)
]

attempt-commit :
    (f : Table → Option Error × Table) (s : Table) (id : String)
    → (attempt f s).0 ≡ none
    → ((f s).0 ≡ none) × (find (attempt f s).1 id ≡ find (f s).1 id)
unfolding attempt
attempt-commit f s id h = ground arith

attempt-rollback :
    (f : Table → Option Error × Table) (s : Table) (id : String) (e : Error)
    → (attempt f s).0 ≡ some e
    → find (attempt f s).1 id ≡ find s id
unfolding attempt
attempt-rollback f s id e h = ground arith

-- The table in memory meets every clause of `IsTable`.
pub memory-IsTable : IsTable memory find
memory-IsTable = record {
  row_key = find-key;
  first_row = first-find;
  owner_id_row = λ o a s r h.
      let (there, both) = latest-find (owns o a) s r h in
      let (x, y) = (and_iff _ _).0 both in (there, (eq_iff _ _).0 x, (eq_iff _ _).0 y);
  owner_email_row = λ e a s r h.
      let (there, both) = latest-find (mails e a) s r h in
      let (x, y) = (and_iff _ _).0 both in (there, (eq_iff _ _).0 x, (eq_iff _ _).0 y);
  save_ok = λ r s id h. find-put (stamped memory_time r) s id;
  save_refused = λ r s id h. absurd (cc);
  create_new = add-none;
  create_ok = add-find;
  create_refused = add-kept;
  commit = attempt-commit;
  rollback = attempt-rollback;
}

-- a run over this table computes where this is unfolded
unfoldable pub in_memory : Unit {0}
unfolding find put add first newest checked latest attempt
in_memory = tt
