-- ===== src/Token/Checked.antt =====
-- What each check of a token establishes.
use opendif_core.Base.{
  Bool, Bool-cases, List, Option, Option-cases, Result, String, [], ap, arith, elem, eq_refl, err,
  false, inl, inr, lookup, none, ok, refl, some, subst, sym, true, ◌>>=◌, ◌∙◌, ◌∷◌, ◌≡◌,
}
use opendif_core.Token.Claims.{
  Claim, MapClaims, claim_list, claim_number, claim_other, claim_string, is_audience_valid,
  number_of, optional_number, required_number,
}

-- The error monad: a step that succeeds has succeeded in both parts.
pub bind_ok :
    {E A B : Type 0} (r : Result E A) (k : A → Result E B) {b : B}
    → (r >>= k) ≡ ok b
    → (a : A) × (r ≡ ok a) × (k a ≡ ok b)
bind_ok (ok a) k h = (a, refl, h)
bind_ok (err e) k h = absurd (ground arith)

pub is_audience_valid_sound :
    (aud valid : List String)
    → is_audience_valid aud valid ≡ true
    → (a : String) × (elem a aud ≡ true) × (elem a valid ≡ true)
unfolding is_audience_valid
is_audience_valid_sound [] valid h = absurd (ground arith)
is_audience_valid_sound (a ∷ rest) valid h = elim (Bool-cases (elem a valid)) [
  | inl e ↦ (a, rw eq_refl refl, e)
  | inr e ↦
      let (b, m, v) = is_audience_valid_sound rest valid (ground arith) in (b, ground arith, v)
]

module _ {Number : Type 0} (is_negative : Number → Bool) where
  -- The claim is a number that is not negative.
  abbrev pub IsNumber : String → MapClaims Number → Number → Type 0
  IsNumber name claims n = (lookup name claims ≡ some (claim_number n)) × (is_negative n ≡ false)

  -- The claim is absent, or such a number.
  abbrev pub IsOptional : String → MapClaims Number → Option Number → Type 0
  IsOptional name claims none = lookup name claims ≡ none
  IsOptional name claims (some n) = IsNumber name claims n

  number_of_ok :
      (name : String) (c : Claim Number) {n : Number}
      → number_of is_negative name c ≡ ok n
      → (c ≡ claim_number n) × (is_negative n ≡ false)
  unfolding number_of
  number_of_ok name (claim_number m) h = elim (Bool-cases (is_negative m)) [
    | inl e ↦ absurd (ground arith)
    | inr e ↦ ground arith
  ]
  number_of_ok name (claim_string s) h = absurd (ground arith)
  number_of_ok name (claim_list l) h = absurd (ground arith)
  number_of_ok name claim_other h = absurd (ground arith)

  pub required_number_ok :
      (name : String) (claims : MapClaims Number) {n : Number}
      → required_number is_negative name claims ≡ ok n
      → IsNumber name claims n
  unfolding required_number
  required_number_ok name claims {n} h = elim (Option-cases (lookup name claims)) [
    | inl e ↦ absurd (ground arith)
    | inr (c, e) ↦
        let (same, sign) = number_of_ok name c (rw (e, required_number) at h) in
        (e ∙ ap some same, sign)
  ]

  pub optional_number_ok :
      (name : String) (claims : MapClaims Number) {o : Option Number}
      → optional_number is_negative name claims ≡ ok o
      → IsOptional name claims o
  unfolding optional_number
  optional_number_ok name claims {o} h = elim (Option-cases (lookup name claims)) [
    | inl e ↦ let unset : o ≡ none = ground arith in subst (IsOptional name claims) (sym unset) e
    | inr (c, e) ↦
        let (n, read, given) =
          bind_ok (number_of is_negative name c) _ (rw (e, optional_number) at h) in
        let (same, sign) = number_of_ok name c read in
        let set : o ≡ some n = ground arith in
        subst (IsOptional name claims) (sym set) (e ∙ ap some same, sign)
  ]
