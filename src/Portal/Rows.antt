-- ===== src/Portal/Rows.antt =====
-- Tables as the services of portal-backend/v1/services use them through GORM: a call that reports
-- an error has changed nothing, and Save writes over the row that was read.
use opendif_core.Base.{
  Bool, Bool-cases, List, Option, Option-cases, Result, String, [], ap, arith, err, if◌then◌else◌,
  inl, inr, none, ok, refl, some, true, ◌==◌, ◌∷◌, ◌≡◌,
}

abbrev pub not_found : String
not_found = "record not found"

module _ {A : Type 0} where
  -- db.First with a condition
  unfoldable pub first_where : (A → Bool) → List A → Option A
  first_where p [] = none
  first_where p (a ∷ rows) = if p a then some a else first_where p rows

  -- the rows that meet a condition
  unfoldable pub all_where : (A → Bool) → List A → List A
  all_where p [] = []
  all_where p (a ∷ rows) = let rest = all_where p rows in if p a then a ∷ rest else rest

  -- db.Delete
  unfoldable pub drop_where : (A → Bool) → List A → List A
  drop_where p [] = []
  drop_where p (a ∷ rows) = let rest = drop_where p rows in if p a then rest else a ∷ rest

  -- db.Save
  unfoldable pub save_where : (A → Bool) → A → List A → List A
  save_where p x [] = []
  save_where p x (a ∷ rows) = let rest = save_where p x rows in if p a then x ∷ rest else a ∷ rest

  -- a read that may fail, by the error it would give
  unfoldable pub read_first : Option String → (A → Bool) → List A → Result String A
  read_first (some e) p rows = err e
  read_first none p rows = elim (first_where p rows) [ none ↦ err not_found | some a ↦ ok a ]

  -- Nothing is dropped where no row meets the condition.
  pub drop_where-none :
      (p : A → Bool) (rows : List A) → first_where p rows ≡ none → drop_where p rows ≡ rows
  unfolding first_where drop_where
  drop_where-none p [] h = refl
  drop_where-none p (a ∷ rows) h = elim (Bool-cases (p a)) [
    | inl e ↦ absurd (ground (arith, h, e))
    | inr e ↦ rw e (ap (λ xs. a ∷ xs) (drop_where-none p rows (rw e at h)))
  ]

  -- A row that meets the condition, put before the others, is the first to be dropped.
  pub drop_where-first :
      (p : A → Bool) (x : A) (rows : List A)
      → p x ≡ true
      → first_where p rows ≡ none
      → drop_where p (x ∷ rows) ≡ rows
  unfolding drop_where
  drop_where-first p x rows e h = rw e (drop_where-none p rows h)

  -- Of two writes over the rows that meet a condition, which the first row written meets as well,
  -- the second counts.
  pub save_where-save_where :
      (p : A → Bool) (x y : A) (rows : List A)
      → p x ≡ true
      → save_where p y (save_where p x rows) ≡ save_where p y rows
  unfolding save_where
  save_where-save_where p x y [] h = refl
  save_where-save_where p x y (a ∷ rows) h =
      let later = save_where-save_where p x y rows h in
      elim (Bool-cases (p a)) [
        | inl e ↦ rw e (rw (h, later) refl)
        | inr e ↦ rw e (rw (e, later) refl)
      ]

-- *p where p may be nil
abbrev pub or_else : {A : Type 0} → Option A → A → A
or_else none a = a
or_else (some b) a = b

-- p where it is not nil, and otherwise what there is
abbrev pub or_keep : {A : Type 0} → Option A → Option A → Option A
or_keep none old = old
or_keep (some b) old = some b

-- *p == "" where p may be nil
abbrev pub is_blank : Option String → Bool
is_blank none = true
is_blank (some s) = s == ""

pub read_first_ok :
    {A : Type 0} (read_error : Option String) (p : A → Bool) (rows : List A) {a : A}
    → read_first read_error p rows ≡ ok a
    → first_where p rows ≡ some a
unfolding read_first
read_first_ok (some e) p rows h = absurd (ground arith)
read_first_ok none p rows h = elim (Option-cases (first_where p rows)) [
  | inl e ↦ absurd (ground (arith, h, e))
  | inr (b, e) ↦ let same = rw (e, read_first) at h in cc (e, same)
]
