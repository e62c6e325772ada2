-- ===== src/Orchestration/Notation.antt =====
-- The notation that getTypeDefinition of services/schema.go gives to a type, read back.
use Prim.Native.Char.{Char}
use Prim.Native.String.{◌++◌ as concat}
use Prim.Native.String.append
use text.Mathlib.TextLemmas.{append_cancel_left, append_cancel_right}
use opendif_core.Base.{
  HasNo, String, ap, concat-cons, eq_false→ne, false, refl, sym, ◌==◌, ◌∙◌, ◌≡◌, ◌≢◌,
}
use opendif_core.Orchestration.Compatibility.{get_type_definition}
use opendif_core.Orchestration.Query.Collect.{TypeRef, list_of, named, non_null}

abbrev pub bang : Char
bang = "!"

abbrev pub bracket : Char
bracket = "]"

-- No name in the type holds a mark of the notation for types.
abbrev pub IsPlainType : TypeRef → Type 0
IsPlainType (named n) = HasNo bang n × HasNo bracket n
IsPlainType (list_of t) = IsPlainType t
IsPlainType (non_null t) = IsPlainType t

-- Two characters whose texts differ differ.
pub is_not : (c d : Char) → (String.◌∷◌ c String.[] == String.◌∷◌ d String.[]) ≡ false → c ≢ d
is_not c d h e = eq_false→ne _ _ h (ap (λ x. String.◌∷◌ x String.[]) e)

-- the last character, of a text after the first one
last : Char → String → Char
last d String.[] = d
last d (String.◌∷◌ c s) = last c s

last-concat : (d c : Char) (s : String) → last d (concat s (String.◌∷◌ c String.[])) ≡ c
unfolding last
last-concat d c String.[] = ap (last d) (append.nil (String.◌∷◌ c String.[]))
last-concat d c (String.◌∷◌ x s) =
    ap (last d) (append.cons x s (String.◌∷◌ c String.[])) ∙ last-concat x c s

last-HasNo : (x d : Char) (s : String) → d ≢ x → HasNo x s → last d s ≢ x
unfolding last
last-HasNo x d String.[] n h = n
last-HasNo x d (String.◌∷◌ c s) n h = last-HasNo x c s h.0 h.1

last-list : (d : Char) (s : String) → last d (concat "[" (concat s "]")) ≡ bracket
unfolding last
last-list d s = ap (last d) (concat-cons "[" (concat s "]")) ∙ last-concat "[" bracket s

-- The notation of a type gives the type back.
pub get_type_definition_injective :
    (a b : TypeRef)
    → IsPlainType a
    → IsPlainType b
    → get_type_definition a ≡ get_type_definition b
    → a ≡ b
unfolding get_type_definition
get_type_definition_injective (named n) (named m) p q e = ap named e
get_type_definition_injective (list_of a) (list_of b) p q e =
    let inner : concat (get_type_definition a) "]" ≡ concat (get_type_definition b) "]" =
      append_cancel_left "[" _ _ e in
    ap list_of (get_type_definition_injective a b p q (append_cancel_right _ _ "]" inner))
get_type_definition_injective (non_null a) (non_null b) p q e =
    ap non_null (get_type_definition_injective a b p q (append_cancel_right _ _ "!" e))
get_type_definition_injective (named n) (list_of b) p q e = absurd (
    last-HasNo bracket "_" n (is_not "_" bracket refl) p.1
      (ap (last "_") e ∙ last-list "_" (get_type_definition b)))
get_type_definition_injective (named n) (non_null b) p q e = absurd (
    last-HasNo bang "_" n (is_not "_" bang refl) p.0
      (ap (last "_") e ∙ last-concat "_" bang (get_type_definition b)))
get_type_definition_injective (list_of a) (named m) p q e = absurd (
    last-HasNo bracket "_" m (is_not "_" bracket refl) q.1
      (ap (last "_") (sym e) ∙ last-list "_" (get_type_definition a)))
get_type_definition_injective (list_of a) (non_null b) p q e = absurd (
    is_not bracket bang refl (
      sym (last-list "_" (get_type_definition a))
      ∙ ap (last "_") e
      ∙ last-concat "_" bang (get_type_definition b)))
get_type_definition_injective (non_null a) (named m) p q e = absurd (
    last-HasNo bang "_" m (is_not "_" bang refl) q.0
      (ap (last "_") (sym e) ∙ last-concat "_" bang (get_type_definition a)))
get_type_definition_injective (non_null a) (list_of b) p q e = absurd (
    is_not bracket bang refl (
      sym (last-list "_" (get_type_definition b))
      ∙ ap (last "_") (sym e)
      ∙ last-concat "_" bang (get_type_definition a)))
