-- ===== src/Base/Colon.antt =====
-- Two texts joined by a colon: the pair can be read back where the first text holds no colon.
use Prim.Native.Char.{Char}
use Prim.Native.String.{String, ◌++◌ as concat}
use Prim.Native.String.append
use mathlib.Core.Path.{◌≡◌, refl, ap, sym, ◌∙◌}
use mathlib.Core.Logic.{◌≢◌}
use mathlib.Core.Bool.{false}
use text.Mathlib.Text.{◌==◌}
use opendif_core.Base.Tests.{eq_false→ne}

abbrev pub colon : Char
colon = ":"

-- The text does not hold the character.
abbrev pub HasNo : Char → String → Type 0
HasNo x String.[] = Unit
HasNo x (String.◌∷◌ c s) = (c ≢ x) × HasNo x s

abbrev pub HasNoColon : String → Type 0
HasNoColon = HasNo colon

pub concat-cons : (c : Char) (t : String) → concat (String.◌∷◌ c String.[]) t ≡ String.◌∷◌ c t
concat-cons c t = append.cons c String.[] t ∙ ap (String.◌∷◌ c) (append.nil t)

-- Two texts that meet at a character which the first ones do not hold.
at_injective :
    (x : Char) (s t f g : String)
    → HasNo x s
    → HasNo x t
    → concat s (String.◌∷◌ x f) ≡ concat t (String.◌∷◌ x g)
    → (s ≡ t) × (f ≡ g)
at_injective x String.[] String.[] f g a b e =
    let met : String.◌∷◌ x f ≡ String.◌∷◌ x g = sym (append.nil _) ∙ e ∙ append.nil _ in
    (refl, cc met)
at_injective x String.[] (String.◌∷◌ d t) f g a b e =
    let met : String.◌∷◌ x f ≡ String.◌∷◌ d (concat t (String.◌∷◌ x g)) =
      sym (append.nil _) ∙ e ∙ append.cons d t _ in
    absurd (b.0 (cc met))
at_injective x (String.◌∷◌ c s) String.[] f g a b e =
    let met : String.◌∷◌ c (concat s (String.◌∷◌ x f)) ≡ String.◌∷◌ x g =
      sym (append.cons c s _) ∙ e ∙ append.nil _ in
    absurd (a.0 (cc met))
at_injective x (String.◌∷◌ c s) (String.◌∷◌ d t) f g a b e =
    let met : String.◌∷◌ c (concat s (String.◌∷◌ x f)) ≡ String.◌∷◌ d (concat t (String.◌∷◌ x g)) =
      sym (append.cons c s _) ∙ e ∙ append.cons d t _ in
    let head : c ≡ d = cc met in
    let tail : concat s (String.◌∷◌ x f) ≡ concat t (String.◌∷◌ x g) = cc met in
    let rest = at_injective x s t f g a.1 b.1 tail in (cc (head, rest.0), rest.1)

-- The same, with the character as a text of its own.
pub join_at_injective :
    (x : Char) (s t f g : String)
    → HasNo x s
    → HasNo x t
    → concat s (concat (String.◌∷◌ x String.[]) f) ≡ concat t (concat (String.◌∷◌ x String.[]) g)
    → (s ≡ t) × (f ≡ g)
join_at_injective x s t f g a b e =
    at_injective x s t f g a b
      (ap (concat s) (sym (concat-cons x f)) ∙ e ∙ ap (concat t) (concat-cons x g))

-- The two texts, joined.
unfoldable pub join_colon : String → String → String
join_colon s f = concat s (concat ":" f)

pub join_colon_injective :
    (s t f g : String)
    → HasNoColon s
    → HasNoColon t
    → join_colon s f ≡ join_colon t g
    → (s ≡ t) × (f ≡ g)
unfolding join_colon
join_colon_injective s t f g a b e = join_at_injective colon s t f g a b e

-- A character whose text is not ":" is no colon.
pub is_not_colon : (c : Char) → (String.◌∷◌ c String.[] == ":") ≡ false → c ≢ colon
is_not_colon c h e = eq_false→ne _ _ h (ap (λ d. String.◌∷◌ d String.[]) e)
