-- ===== src/Orchestration/Query/Paths.antt =====
-- The paths of a selection set.
use opendif_core.Base.{
  Bool, Bool-cases, List, String, [], arith, eq_comm, eq_iff, false, inl, inr, ◌&&◌, ◌==◌, ◌||◌,
  ◌∷◌, ◌≡◌,
}
use opendif_core.Orchestration.Query.Trees.{SelectionSet, end, push_field, selected}

-- Is there a field at the path, whose first segment is `c`?
unfoldable pub has_path : String → List String → SelectionSet → Bool
has_path c rest end = false
has_path c [] (selected n args children others) = n == c || has_path c [] others
has_path c (x ∷ xs) (selected n args children others) =
    (n == c && has_path x xs children) || has_path c (x ∷ xs) others

-- Is the first path the second, or the start of it?
unfoldable pub is_start : String → List String → String → List String → Bool
is_start d [] c rest = d == c
is_start d (y ∷ ys) c [] = false
is_start d (y ∷ ys) c (x ∷ xs) = d == c && is_start y ys x xs

-- A selection set to which a path was pushed has its own paths, the pushed one, and the starts of
-- that one, and no others.
pub has_path-push_field :
    (d : String) (ys : List String) (c : String) (xs : List String) (set : SelectionSet)
    → has_path d ys (push_field c xs set) ≡ (has_path d ys set || is_start d ys c xs)
unfolding has_path push_field is_start
has_path-push_field d [] c [] end = ground (arith, eq_iff c d, eq_iff d c)
has_path-push_field d (y ∷ ys) c [] end = ground (arith, eq_iff c d, eq_iff d c)
has_path-push_field d [] c (x ∷ xs) end = ground (arith, eq_iff c d, eq_iff d c)
has_path-push_field d (y ∷ ys) c (x ∷ xs) end =
    let deeper = has_path-push_field y ys x xs end in ground (arith, deeper, eq_comm c d)
has_path-push_field d [] c [] (selected n args children others) =
    let later = has_path-push_field d [] c [] others in
    elim (Bool-cases (n == c)) [
      | inl e ↦ rw (e, push_field) (ground (arith, eq_iff n c, eq_iff n d, eq_iff d c))
      | inr e ↦ rw (e, push_field) (ground (arith, later))
    ]
has_path-push_field d [] c (x ∷ xs) (selected n args children others) =
    let later = has_path-push_field d [] c (x ∷ xs) others in
    elim (Bool-cases (n == c)) [
      | inl e ↦ rw (e, push_field) (ground (arith, eq_iff n c, eq_iff n d, eq_iff d c))
      | inr e ↦ rw (e, push_field) (ground (arith, later))
    ]
has_path-push_field d (y ∷ ys) c [] (selected n args children others) =
    let later = has_path-push_field d (y ∷ ys) c [] others in
    elim (Bool-cases (n == c)) [
      | inl e ↦ rw (e, push_field) (ground (arith, eq_iff n c, eq_iff n d, eq_iff d c))
      | inr e ↦ rw (e, push_field) (ground (arith, later))
    ]
has_path-push_field d (y ∷ ys) c (x ∷ xs) (selected n args children others) =
    let later = has_path-push_field d (y ∷ ys) c (x ∷ xs) others in
    let deeper = has_path-push_field y ys x xs children in
    elim (Bool-cases (n == c)) [
      | inl e ↦ rw (e, push_field) (ground (arith, eq_iff n c, eq_iff n d, eq_iff d c, deeper))
      | inr e ↦ rw (e, push_field) (ground (arith, later))
    ]
