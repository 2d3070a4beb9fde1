-- ===== src/Llm/Declared.antt =====
-- What the language model is told of parameters that a tool declares as a schema.
use ai_assistant_driver.Common.{◌≡◌, refl, ap, Option, none, some, List, [], ◌∷◌, map, Text, codes}
use ai_assistant_driver.Llm.{Tool}
use ai_assistant_driver.Llm.Schema.{
  Value, text, array, object, Values, no_values, value, Fields, no_fields, field, lookup, text_at,
  array_at, object_at, ToolProperty, property_of, properties_of, convert_tool_params,
  required_names, extract_required_params,
}
use ai_assistant_driver.Llm.Ollama.{convert_tool}

-- A parameter with a type and a description.
pub record Parameter : Type 0 where
  pub name : Text
  pub type : Text
  pub description : Text

abbrev schema_of : Parameter → Value
schema_of p = object (
    field (codes "type") (text p.type) (field (codes "description") (text p.description) no_fields))

abbrev property_fields : List Parameter → Fields
property_fields [] = no_fields
property_fields (p ∷ ps) = field p.name (schema_of p) (property_fields ps)

abbrev name_values : List Text → Values
name_values [] = no_values
name_values (name ∷ names) = value (text name) (name_values names)

-- The names of the required parameters, if the schema has any.
abbrev required_field : Option (List Text) → Fields
required_field none = no_fields
required_field (some names) = field (codes "required") (array (name_values names)) no_fields

-- A schema of parameters, in the order in which one iteration over the map of the properties meets them.
abbrev pub declare : List Parameter → Option (List Text) → Fields
declare ps required =
    field (codes "type") (text (codes "object"))
      (field (codes "properties") (object (property_fields ps)) (required_field required))

abbrev pub names_or_none : Option (List Text) → List Text
names_or_none none = []
names_or_none (some names) = names

abbrev pub told : Parameter → Text × ToolProperty
told p = (p.name, record { type = p.type ∷ []; description = p.description; enum = none })

properties_of_declared : (ps : List Parameter) → properties_of (property_fields ps) ≡ map told ps
unfolding properties_of property_of text_at array_at lookup
properties_of_declared [] = refl
properties_of_declared (p ∷ ps) = ap (λ rest. told p ∷ rest) (properties_of_declared ps)

required_names_declared : (names : List Text) → required_names (name_values names) ≡ names
unfolding required_names
required_names_declared [] = refl
required_names_declared (name ∷ names) = ap (λ rest. name ∷ rest) (required_names_declared names)

convert_tool_params_declared :
    (ps : List Parameter) (required : Option (List Text))
    → convert_tool_params (some (declare ps required)) ≡ some (map told ps)
unfolding convert_tool_params object_at lookup
convert_tool_params_declared ps required = ap some (properties_of_declared ps)

extract_required_params_declared :
    (ps : List Parameter) (required : Option (List Text))
    → extract_required_params (some (declare ps required)) ≡ names_or_none required
unfolding extract_required_params array_at lookup
extract_required_params_declared ps none = refl
extract_required_params_declared ps (some names) = required_names_declared names

-- A tool that declares parameters with types and descriptions, and maybe which of them are required, is
-- described to the model by its name, its description, exactly these parameters, in the order in which
-- the iteration over their map meets them, and the names of the required ones, none if it has no such
-- list.
pub convert_tool-declare :
    {W : Type 0} (tool : Tool W) (ps : List Parameter) (required : Option (List Text))
    → tool.parameters ≡ some (declare ps required)
    → convert_tool tool ≡ record {
      type = codes "function";
      name = tool.name;
      description = tool.description;
      parameters_type = codes "object";
      properties = some (map told ps);
      required = names_or_none required;
    }
unfolding convert_tool
convert_tool-declare tool ps required declared = cc (
  ap convert_tool_params declared,
  ap extract_required_params declared,
  convert_tool_params_declared ps required,
  extract_required_params_declared ps required,
)
