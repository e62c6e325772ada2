-- ===== src/Base/Assoc.antt =====
-- A Go map with text keys, as an association list with one entry for a key.
use Prim.Native.String.{String}
use mathlib.Core.Path.{◌≡◌, refl, ap}
use mathlib.Core.Bool.{Bool, true, false}
use mathlib.Core.Option.{Option, none, some}
use mathlib.Core.List.{List, [], ◌∷◌}
use mathlib.Core.Logic.{inl, inr}
use text.Mathlib.TextPositions.{eq_refl}
use native.Mathlib.Omega.{arith}
use text.Mathlib.Text.{◌==◌}
use text.Mathlib.TextEquality.{eq_iff}
use opendif_core.Base.Tests.{if◌then◌else◌, Bool-cases}

abbrev pub Dict : Type 0 → Type 0
Dict V = List (String × V)

module _ {V : Type 0} where
  -- m[name] with its second value
  unfoldable pub lookup : String → Dict V → Option V
  lookup name [] = none
  lookup name (entry ∷ d) = if entry.0 == name then some entry.1 else lookup name d

  -- m[name] = x
  unfoldable pub insert : String → V → Dict V → Dict V
  insert name x [] = (name, x) ∷ []
  insert name x (entry ∷ d) = if entry.0 == name then (name, x) ∷ d else entry ∷ insert name x d

  -- What a map gives after a write.
  pub lookup-insert :
      (name other : String) (x : V) (d : Dict V)
      → lookup other (insert name x d) ≡ (if name == other then some x else lookup other d)
  unfolding lookup insert
  lookup-insert name other x [] = refl
  lookup-insert name other x (entry ∷ d) =
      let later = lookup-insert name other x d in
      elim (Bool-cases (entry.0 == name)) [
        | inl same ↦ ground (arith, eq_iff name other, eq_iff entry.0 name, eq_iff entry.0 other)
        | inr differ ↦
            rw (differ, lookup)
              (ground (arith, later, eq_iff name other, eq_iff entry.0 name, eq_iff entry.0 other))
      ]

  -- A second write of the same entry changes nothing.
  pub insert-insert :
      (name : String) (x : V) (d : Dict V) → insert name x (insert name x d) ≡ insert name x d
  unfolding insert
  insert-insert name x [] = rw eq_refl
  insert-insert name x (entry ∷ d) = elim (Bool-cases (entry.0 == name)) [
    | inl same ↦ rw same (rw eq_refl)
    | inr differ ↦ rw differ (rw differ (ap (λ r. entry ∷ r) (insert-insert name x d)))
  ]

-- Is the key in the map?
abbrev pub has_key : {V : Type 0} → String → Dict V → Bool
has_key k m = elim (lookup k m) [ none ↦ false | some v ↦ true ]
