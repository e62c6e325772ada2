-- ===== src/Orchestration/Query/Segments.antt =====
-- isPathPrefix of exchange/orchestration-engine/federator/arghandler.go, and the segments of a
-- path.
use Prim.Native.String.{◌++◌ as concat}
use Prim.Native.String.append
use Prim.Native.Char.{Char}
use text.Mathlib.Text.{starts_with}
use mathlib.Core.List.{append-nil}
use text.Mathlib.TextLemmas.{append_assoc}
use text.Mathlib.TextEquality.{starts_with_iff}
use opendif_core.Base.{
  Bool, Bool-cases, List, String, [], and_iff, ap, arith, eq_iff, eq_refl, inl, inr, refl, subst,
  sym, true, ◌++◌, ◌==◌, ◌||◌, ◌∙◌, ◌∷◌, ◌≡◌, ◌⊎◌,
}
use opendif_core.Orchestration.Query.Paths.{is_start}
use opendif_core.Orchestration.Query.Trees.{join_dot, split_dot, split_on}

unfoldable pub is_path_prefix : (path prefix : String) → Bool
is_path_prefix path prefix = path == prefix || starts_with path (concat prefix ".")

abbrev dot : Char
dot = "."

concat-dot : (t : String) → concat "." t ≡ String.◌∷◌ dot t
concat-dot t = append.cons dot String.[] t ∙ ap (String.◌∷◌ dot) (append.nil t)

is_dot : (c : Char) → (String.◌∷◌ c String.[] == ".") ≡ true → c ≡ dot
is_dot c e = cc ((eq_iff _ _).0 e)

join_dot-cons :
    (c : Char) (s : String) (xs : List String)
    → join_dot (String.◌∷◌ c s) xs ≡ String.◌∷◌ c (join_dot s xs)
unfolding join_dot
join_dot-cons c s [] = refl
join_dot-cons c s (x ∷ xs) = append.cons c s _

-- The segments that strings.Split gives, joined by dots, are the path again.
join_dot-split_dot : (s : String) → join_dot (split_dot s).0 (split_dot s).1 ≡ s
unfolding split_on join_dot
join_dot-split_dot String.[] = refl
join_dot-split_dot (String.◌∷◌ c s) =
    let later = join_dot-split_dot s in
    elim (Bool-cases (String.◌∷◌ c String.[] == ".")) [
      | inl e ↦ rw e (append.nil _ ∙ concat-dot _ ∙ cc (later, is_dot c e))
      | inr e ↦ rw e (join_dot-cons c _ _ ∙ ap (String.◌∷◌ c) later)
    ]

split_dot-dot : (t : String) → split_dot (concat "." t) ≡ ("", (split_dot t).0 ∷ (split_dot t).1)
unfolding split_on
split_dot-dot t = rw (concat-dot t) refl

split_dot-append :
    (s t : String)
    → split_dot (concat s (concat "." t))
      ≡ ((split_dot s).0, (split_dot s).1 ++ (split_dot t).0 ∷ (split_dot t).1)
unfolding split_on
split_dot-append String.[] t = rw (append.nil (concat "." t)) (split_dot-dot t)
split_dot-append (String.◌∷◌ c s) t =
    let later = split_dot-append s t in
    rw (append.cons c s (concat "." t)) (elim (Bool-cases (String.◌∷◌ c String.[] == ".")) [
      | inl e ↦ rw (e, later, split_on) refl
      | inr e ↦ rw (e, later, split_on) refl
    ])

is_start-append : (c : String) (xs ys : List String) → is_start c xs c (xs ++ ys) ≡ true
unfolding is_start
is_start-append c [] ys = eq_refl c
is_start-append c (x ∷ xs) ys = rw (eq_refl c, is_start-append x xs ys)

join_dot-is_start :
    (d : String) (ys : List String) (c : String) (xs : List String)
    → is_start d ys c xs ≡ true
    → (join_dot c xs ≡ join_dot d ys)
      ⊎ ((r : String) × (join_dot c xs ≡ concat (join_dot d ys) (concat "." r)))
unfolding is_start join_dot
join_dot-is_start d [] c [] h = inl (sym ((eq_iff d c).0 h))
join_dot-is_start d [] c (x ∷ xs) h =
    inr (join_dot x xs, ap (λ s. concat s (concat "." (join_dot x xs))) (sym ((eq_iff d c).0 h)))
join_dot-is_start d (y ∷ ys) c [] h = absurd (ground arith)
join_dot-is_start d (y ∷ ys) c (x ∷ xs) h =
    let (e, later) = (and_iff (d == c) (is_start y ys x xs)).0 h in
    elim (join_dot-is_start y ys x xs later) [
      | inl same ↦ inl (cc (same, (eq_iff d c).0 e))
      | inr (r, longer) ↦ inr (
        r,
        rw (longer, (eq_iff d c).0 e)
            (sym (
              append_assoc c (concat "." (join_dot y ys)) (concat "." r)
              ∙ ap (concat c) (append_assoc "." (join_dot y ys) (concat "." r)))),
      )
    ]

is_path_prefix-is_start_there :
    (path prefix : String)
    → is_path_prefix path prefix ≡ true
    → is_start (split_dot prefix).0 (split_dot prefix).1 (split_dot path).0 (split_dot path).1
      ≡ true
unfolding is_path_prefix
is_path_prefix-is_start_there path prefix h =
    let at_append = is_start-append (split_dot prefix).0 (split_dot prefix).1 in
    elim (Bool-cases (path == prefix)) [
      | inl same ↦ rw ((eq_iff path prefix).0 same) (
          subst
            (λ xs.
              is_start (split_dot prefix).0 (split_dot prefix).1 (split_dot prefix).0 xs ≡ true)
            (append-nil _) (at_append []))
      | inr differ ↦
          let (r, longer) = (starts_with_iff path (concat prefix ".")).0 (rw differ at h) in
          rw (sym longer, append_assoc prefix "." r, split_dot-append prefix r) (at_append _)
    ]

is_start-is_path_prefix_back :
    (path prefix : String)
    → is_start (split_dot prefix).0 (split_dot prefix).1 (split_dot path).0 (split_dot path).1
      ≡ true
    → is_path_prefix path prefix ≡ true
unfolding is_path_prefix
is_start-is_path_prefix_back path prefix h =
    elim (join_dot-is_start _ (split_dot prefix).1 _ (split_dot path).1 h) [
      | inl same ↦ ground (
        arith,
        (eq_iff path prefix).1 (cc (same, join_dot-split_dot path, join_dot-split_dot prefix)),
      )
      | inr (r, longer) ↦
          let whole : concat prefix (concat "." r) ≡ path =
            cc (longer, join_dot-split_dot path, join_dot-split_dot prefix) in
          let starts =
            (starts_with_iff path (concat prefix ".")).1 (r, append_assoc prefix "." r ∙ whole) in
          ground (arith, starts)
    ]

-- isPathPrefix compares whole segments: it holds just where the segments of the one path are the
-- first segments of the other.
pub is_path_prefix-is_start :
    (path prefix : String)
    → is_path_prefix path prefix
      ≡ is_start (split_dot prefix).0 (split_dot prefix).1 (split_dot path).0 (split_dot path).1
is_path_prefix-is_start path prefix =
    let there = is_path_prefix-is_start_there path prefix in
    let back = is_start-is_path_prefix_back path prefix in ground (arith, there, back)
