-- ===== src/Policy/Granted.antt =====
-- What UpdateAllowList does to the metadata that it writes.
use mathlib.Core.Option
use opendif_core.Base.{
  Bool-cases, Dict, List, Option-cases, String, [], ap, arith, elem, eq_iff, false, if◌then◌else◌,
  inl, inr, insert, insert-insert, lookup, lookup-insert, map, none, refl, some, subst, true, ◌&&◌,
  ◌==◌, ◌||◌, ◌∙◌, ◌∷◌, ◌≡◌, ◌⊎◌,
}
use opendif_core.Policy.AllowLists.{grant, grant_all, ref_key}
use opendif_core.Policy.Models.{AllowListEntry, FieldRef, PolicyMetadata}

module _ (app : String) (entry : AllowListEntry) where
  -- What the grant makes of a row: the entry is set for the application, and nothing else
  -- changes.
  abbrev granted : PolicyMetadata → PolicyMetadata
  granted pm = record pm { allow_list = insert app entry pm.allow_list }

  granted-granted : (pm : PolicyMetadata) → granted (granted pm) ≡ granted pm
  granted-granted pm = ground (arith, insert-insert app entry pm.allow_list)

  lookup-grant :
      (f : FieldRef) (k : String) (m : Dict PolicyMetadata)
      → lookup k (grant app entry f m)
        ≡ (if ref_key f == k then Option.map granted (lookup k m) else lookup k m)
  unfolding grant
  lookup-grant f k m = elim (Option-cases (lookup (ref_key f) m)) [
    | inl lost ↦ elim (Bool-cases (ref_key f == k)) [
      | inl same ↦
          let e : lookup k m ≡ none = subst (λ j. lookup j m ≡ none) ((eq_iff _ _).0 same) lost in
          rw (lost, grant) (rw (same, e))
      | inr other ↦ rw (lost, grant) (rw other)
    ]
    | inr (pm, e) ↦ elim (Bool-cases (ref_key f == k)) [
      | inl same ↦
          let at_k : lookup k m ≡ some pm =
            subst (λ j. lookup j m ≡ some pm) ((eq_iff _ _).0 same) e in
          rw (e, grant) (lookup-insert (ref_key f) k (granted pm) m ∙ (rw (same, at_k)))
      | inr other ↦ rw (e, grant) (lookup-insert (ref_key f) k (granted pm) m ∙ (rw other))
    ]
  ]

  -- a row after the loop, from the row before it
  lookup-grant_all :
      (fs : List FieldRef) (k : String) (m : Dict PolicyMetadata)
      → lookup k (grant_all app entry fs m)
        ≡ (if elem k (map ref_key fs) then Option.map granted (lookup k m) else lookup k m)
  unfolding grant_all
  lookup-grant_all [] k m = refl
  lookup-grant_all (f ∷ fs) k m =
      lookup-grant_all fs k (grant app entry f m)
      ∙ split (Bool-cases (ref_key f == k)) (Bool-cases (elem k (map ref_key fs)))
          (Option-cases (lookup k m))
    where
      split :
          ((ref_key f == k) ≡ true) ⊎ ((ref_key f == k) ≡ false)
          → (elem k (map ref_key fs) ≡ true) ⊎ (elem k (map ref_key fs) ≡ false)
          → (lookup k m ≡ none) ⊎ ((pm : PolicyMetadata) × (lookup k m ≡ some pm))
          → (if elem k (map ref_key fs)
              then Option.map granted (lookup k (grant app entry f m))
              else lookup k (grant app entry f m))
            ≡ (if ref_key f == k || elem k (map ref_key fs)
                then Option.map granted (lookup k m)
                else lookup k m)
      split (inl a) (inl b) (inl c) = rw (lookup-grant f k m) (rw (a, b, c))
      split (inl a) (inl b) (inr (pm, c)) =
          rw (lookup-grant f k m) (rw (a, b, c) (ap some (granted-granted pm)))
      split (inl a) (inr b) c = rw (lookup-grant f k m) (rw (a, b))
      split (inr a) (inl b) c = rw (lookup-grant f k m) (rw (a, b))
      split (inr a) (inr b) c = rw (lookup-grant f k m) (rw (a, b))

-- What an allow list says of an application after the loop over `records`: the new entry for the
-- application of the request where a record names the key, and what it said before otherwise.
abbrev pub IsGranted :
    String → AllowListEntry → List FieldRef → String → PolicyMetadata → PolicyMetadata → Type 0
IsGranted app entry records k pm pm' =
    (other : String)
    → lookup other pm'.allow_list ≡ (
        if elem k (map ref_key records) && app == other
        then some entry
        else lookup other pm.allow_list)

-- Where the map has metadata under a key, the loop of UpdateAllowList leaves metadata there whose
-- allow list gives the application of the request the new entry if a record of the request has
-- that key; every other application, and every key that no record has, keeps what it had.
pub grant_all_entries :
    (app : String) (entry : AllowListEntry) (records : List FieldRef) (k : String)
    (m : Dict PolicyMetadata) (pm : PolicyMetadata)
    → lookup k m ≡ some pm
    → (pm' : PolicyMetadata) × (lookup k (grant_all app entry records m) ≡ some pm')
      × IsGranted app entry records k pm pm'
grant_all_entries app entry records k m pm e = elim (Bool-cases (elem k (map ref_key records))) [
  | inl named ↦ (
    granted app entry pm,
    lookup-grant_all app entry records k m ∙ (rw (named, e)),
    λ other. lookup-insert app other entry pm.allow_list ∙ (rw named),
  )
  | inr unnamed ↦
      (pm, lookup-grant_all app entry records k m ∙ (rw (unnamed, e)), λ other. rw unnamed)
]
