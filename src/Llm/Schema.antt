-- ===== src/Llm/Schema.antt =====
-- internal/llm/ollama/client.go: the parameters of a tool, as the language model is told of them. A
-- `map[string]any` is its entries in the order of one iteration; what is neither a string, a list nor
-- a map is never looked into.
use ai_assistant_driver.Common.{
  Option, none, some, List, [], ◌∷◌, if◌then◌else◌, Text, text_eq, codes,
}

mutual
  pub data Value : Type 0 where
    other : Value
    text : Text → Value
    array : Values → Value
    object : Fields → Value

  pub data Values : Type 0 where
    no_values : Values
    value : Value → Values → Values

  pub data Fields : Type 0 where
    no_fields : Fields
    field : (name : Text) → Value → Fields → Fields

-- The value of a key, if there is one.
unfoldable pub lookup : Text → Fields → Option Value
lookup k no_fields = none
lookup k (field name v rest) = let later = lookup k rest in if text_eq name k then some v else later

-- `v.(string)`, `v.([]any)` and `v.(map[string]any)` on the value of a key.
unfoldable pub text_at : Text → Fields → Option Text
unfolding lookup
text_at k fields = elim (lookup k fields) [ some (text s) ↦ some s | _ ↦ none ]

unfoldable pub array_at : Text → Fields → Option Values
unfolding lookup
array_at k fields = elim (lookup k fields) [ some (array vs) ↦ some vs | _ ↦ none ]

unfoldable pub object_at : Text → Fields → Option Fields
unfolding lookup
object_at k fields = elim (lookup k fields) [ some (object m) ↦ some m | _ ↦ none ]

-- api.ToolProperty, where the zero values are empty.
pub record ToolProperty : Type 0 where
  pub type : List Text
  pub description : Text
  pub enum : Option Values

abbrev or_empty : Option Text → Text
or_empty none = []
or_empty (some s) = s

abbrev one_or_none : Option Text → List Text
one_or_none none = []
one_or_none (some s) = s ∷ []

unfoldable pub property_of : Fields → ToolProperty
unfolding text_at array_at
property_of m = record {
  type = one_or_none (text_at (codes "type") m);
  description = or_empty (text_at (codes "description") m);
  enum = array_at (codes "enum") m;
}

-- The loop over the properties; what is no map is left out.
unfoldable pub properties_of : Fields → List (Text × ToolProperty)
unfolding property_of
properties_of no_fields = []
properties_of (field name (object m) rest) = (name, property_of m) ∷ properties_of rest
properties_of (field name _ rest) = properties_of rest

-- convertToolParams; `none` is nil, of parameters and of the result.
unfoldable pub convert_tool_params : Option Fields → Option (List (Text × ToolProperty))
unfolding properties_of object_at
convert_tool_params none = none
convert_tool_params (some params) = elim (object_at (codes "properties") params) [
  | none ↦ some []
  | some m ↦ some (properties_of m)
]

-- An entry that is no string stays the empty one that `make` gave.
unfoldable pub required_names : Values → List Text
required_names no_values = []
required_names (value (text s) rest) = s ∷ required_names rest
required_names (value _ rest) = [] ∷ required_names rest

-- extractRequiredParams
unfoldable pub extract_required_params : Option Fields → List Text
unfolding array_at required_names
extract_required_params none = []
extract_required_params (some params) = elim (array_at (codes "required") params) [
  | none ↦ []
  | some vs ↦ required_names vs
]
