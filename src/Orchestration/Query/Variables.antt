-- ===== src/Orchestration/Query/Variables.antt =====
-- PushVariablesFromVariableDefinition and PushArgumentValue:
-- exchange/orchestration-engine/federator/mapper.go. Several sources may hold one argument: the
-- first of them to be reached gets its constant, and the others find it there.
use opendif_core.Base.{
  Bool, Dict, List, Option, String, elem, if◌then◌else◌, lookup, map, none, some,
}
use opendif_core.Orchestration.Query.Arguments.{ArgSource}
use opendif_core.Orchestration.Query.Trees.{
  Value, boolean_value, float_value, int_value, string_value, variable,
}

-- the Go types of a variable's value; any other leaves the argument as it is
pub data Input (Int Float : Type 0) : Type 0 where
  text : String → Input Int Float
  integer : Int → Input Int Float
  float : Float → Input Int Float
  boolean : Bool → Input Int Float
  other_input : Input Int Float

-- `rune_text` is string(rune(v)), `format_float` is strconv.FormatFloat(v, 'f', -1, 64).
module _ {Int Float : Type 0} (rune_text : Int → String) (format_float : Float → String) where
  -- the value that PushArgumentValue puts into an argument of the given value
  unfoldable pub push_argument_value : Value → Input Int Float → Value
  push_argument_value v (text s) = string_value s
  push_argument_value v (integer n) = int_value (rune_text n)
  push_argument_value v (float x) = float_value (format_float x)
  push_argument_value v (boolean b) = boolean_value b
  push_argument_value v other_input = v

  -- the value of an argument after PushVariablesFromVariableDefinition
  unfoldable pub resolve : Dict (Input Int Float) → List String → Value → Value
  resolve variables definitions (variable n) = elim (lookup n variables) [
    | none ↦ variable n
    | some v ↦ if elem n definitions then push_argument_value (variable n) v else variable n
  ]
  resolve variables definitions v = v

  abbrev pub resolve_source : Dict (Input Int Float) → List String → ArgSource → ArgSource
  resolve_source variables definitions a = record {
    mapping = a.mapping;
    argument = record {
      name = a.argument.name;
      value = resolve variables definitions a.argument.value;
    };
  }

  -- nil variables are none
  unfoldable pub push_variables :
      Option (Dict (Input Int Float)) → List String → List ArgSource → List ArgSource
  push_variables none definitions args = args
  push_variables (some variables) definitions args = map (resolve_source variables definitions) args
