-- ===== src/Orchestration/Query/Attached.antt =====
-- Where PushArgumentsToProviderQueryAst attaches arguments.
use opendif_core.Base.{
  List, String, [], ap, arith, length, ltb, refl, true, ◌&&◌, ◌++◌, ◌==◌, ◌||◌, ◌∙◌, ◌∷◌, ◌≡◌,
}
use opendif_core.Orchestration.Query.Arguments.{
  ArgSource, Visitor, attached, drop_last, enter_field, entered, join_path, left, push_arguments,
}
use opendif_core.Orchestration.Query.Paths.{has_path}
use opendif_core.Orchestration.Query.Trees.{Argument, SelectionSet, end, join_dot, selected}

-- Every field with the arguments for its own path, which is `path` and the names down to it.
unfoldable pub at_paths : List ArgSource → List String → SelectionSet → SelectionSet
at_paths sources path end = end
at_paths sources path (selected n args children others) =
    selected n (args ++ attached sources (join_path (path ++ n ∷ [])))
      (at_paths sources (path ++ n ∷ []) children) (at_paths sources path others)

drop_last-append : (xs : List String) (n : String) → drop_last (xs ++ n ∷ []) ≡ xs
drop_last-append [] n = refl
drop_last-append (x ∷ []) n = refl
drop_last-append (x ∷ y ∷ ys) n = ap (λ zs. x ∷ zs) (drop_last-append (y ∷ ys) n)

left-entered : (x : String) (xs : List String) (n : String) → left (entered (x ∷ xs) n) ≡ x ∷ xs
unfolding left
left-entered x [] n = refl
left-entered x (y ∷ ys) n =
    let long : ltb 1 (length (x ∷ y ∷ ys ++ n ∷ [])) ≡ true = ground arith in
    rw long (drop_last-append (x ∷ y ∷ ys) n)

module _ (visitor : Visitor) (sources : List ArgSource) where
  -- Below a field the path is right, and is put back.
  visit-at_paths :
      (x : String) (xs : List String) (set : SelectionSet)
      → visitor.visit (enter_field sources) left (x ∷ xs) set
        ≡ (at_paths sources (x ∷ xs) set, x ∷ xs)
  unfolding at_paths
  visit-at_paths x xs end = visitor.visit_end (enter_field sources) left (x ∷ xs)
  visit-at_paths x xs (selected n args children others) =
      let below = visit-at_paths x (xs ++ n ∷ []) children in
      let after = visit-at_paths x xs others in
      visitor.visit_selected (enter_field sources) left (x ∷ xs) n args children others
      ∙ rw (below, left-entered x xs n, after) refl

  -- PushArgumentsToProviderQueryAst gives the first field of the query and all below it the
  -- arguments whose target path has the field's path as a start; every other field at the top gets
  -- those of the path that begins with the name of the first field.
  pub push_arguments-at_paths :
      (n : String) (args : List Argument) (children others : SelectionSet)
      → push_arguments visitor sources (selected n args children others)
        ≡ selected n
            (args ++ attached sources n)
            (at_paths sources (n ∷ []) children)
            (at_paths sources (n ∷ []) others)
  unfolding left join_dot
  push_arguments-at_paths n args children others =
      let below = visit-at_paths n [] children in
      let after = visit-at_paths n [] others in
      let whole : visitor.visit (enter_field sources) left [] (selected n args children others) ≡ (
        selected n (args ++ attached sources n) (at_paths sources (n ∷ []) children)
            (at_paths sources (n ∷ []) others),
        n ∷ [],
      ) =
        visitor.visit_selected (enter_field sources) left [] n args children others
        ∙ rw (below, after) refl in
      ap (λ r. r.0) whole

  has_path-at_paths :
      (d : String) (ys path : List String) (set : SelectionSet)
      → has_path d ys (at_paths sources path set) ≡ has_path d ys set
  unfolding has_path at_paths
  has_path-at_paths d ys path end = refl
  has_path-at_paths d [] path (selected n args children others) =
      ap (λ b. n == d || b) (has_path-at_paths d [] path others)
  has_path-at_paths d (y ∷ ys) path (selected n args children others) =
      let below = has_path-at_paths y ys (path ++ n ∷ []) children in
      let after = has_path-at_paths d (y ∷ ys) path others in
      ap (λ b. (n == d && b) || has_path d (y ∷ ys) (at_paths sources path others)) below
      ∙ ap (λ b. (n == d && has_path y ys children) || b) after

  -- The arguments change no path of the query.
  pub has_path-push_arguments :
      (d : String) (ys : List String) (set : SelectionSet)
      → has_path d ys (push_arguments visitor sources set) ≡ has_path d ys set
  unfolding has_path
  has_path-push_arguments d ys end =
      ap (λ r. has_path d ys r.0) (visitor.visit_end (enter_field sources) left [])
  has_path-push_arguments d [] (selected n args children others) =
      ap (has_path d []) (push_arguments-at_paths n args children others)
      ∙ ap (λ b. n == d || b) (has_path-at_paths d [] (n ∷ []) others)
  has_path-push_arguments d (y ∷ ys) (selected n args children others) =
      let below = has_path-at_paths y ys (n ∷ []) children in
      let after = has_path-at_paths d (y ∷ ys) (n ∷ []) others in
      ap (has_path d (y ∷ ys)) (push_arguments-at_paths n args children others)
      ∙ ap (λ b. (n == d && b) || has_path d (y ∷ ys) (at_paths sources (n ∷ []) others)) below
      ∙ ap (λ b. (n == d && has_path y ys children) || b) after
