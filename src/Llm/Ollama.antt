-- ===== src/Llm/Ollama.antt =====
-- internal/llm/ollama/client.go: a chat with the model over the client library, which is a parameter:
-- it gives the responses that it handed to the callback, and the error that it returned.
use ai_assistant_driver.Common.{
  ◌&&◌, Option, none, some, List, [], ◌∷◌, ◌++◌, if◌then◌else◌, is_nil, Text, codes, Result, ok,
  err,
}
use ai_assistant_driver.Llm.{Tool, ToolCall}
use ai_assistant_driver.Llm.Schema.{ToolProperty, convert_tool_params, extract_required_params}

pub record ApiMessage : Type 0 where
  pub role : Text
  pub content : Text

-- One response: the content, and the calls with their identifiers, names and arguments.
pub record ChatResponse : Type 0 where
  pub content : Text
  pub tool_calls : List ToolCall

-- api.Tool, with its function; the two types are the constants `function` and `object`.
pub record ApiTool : Type 0 where
  pub type : Text
  pub name : Text
  pub description : Text
  pub parameters_type : Text
  pub properties : Option (List (Text × ToolProperty))
  pub required : List Text

pub record ChatRequest : Type 0 where
  pub model : Text
  pub messages : List ApiMessage
  pub tools : List ApiTool

abbrev pub Api : Type 0 → Type 0
Api W = ChatRequest → W → W × (List ChatResponse × Option Text)

pub record OllamaClient (W : Type 0) : Type 0 where
  pub api : Api W
  pub model : Text
  pub system_message : Text

abbrev system_role : Text
system_role = codes "system"

abbrev user_role : Text
user_role = codes "user"

-- A message that is left out if it is empty.
unfoldable unless_empty : Text → Text → List ApiMessage
unless_empty role content =
    if is_nil content then [] else record { role = role; content = content } ∷ []

unfoldable pub messages : Text → Text → Text → List ApiMessage
unfolding unless_empty
messages system_message conversation_context prompt =
    unless_empty system_role system_message
    ++ (unless_empty user_role conversation_context
        ++ record { role = user_role; content = prompt } ∷ [])

-- The callback over the responses: the last content, all calls.
unfoldable pub receive : List ChatResponse → Text → List ToolCall → Text × List ToolCall
receive [] text calls = (text, calls)
receive (r ∷ rest) text calls = receive rest r.content (calls ++ r.tool_calls)

-- `responseText == "" && len(toolCalls) == 0`
unfoldable pub non_empty : Text × List ToolCall → Result Text (Text × List ToolCall)
non_empty (text, calls) =
    if is_nil text && is_nil calls then err (codes "empty response from LLM") else ok (text, calls)

unfoldable pub after_chat : List ChatResponse × Option Text → Result Text (Text × List ToolCall)
unfolding receive non_empty
after_chat (responses, some e) = err (codes "failed to chat: " ++ e)
after_chat (responses, none) = non_empty (receive responses [] [])

unfoldable pub convert_tool : {W : Type 0} → Tool W → ApiTool
unfolding convert_tool_params extract_required_params
convert_tool tool = record {
  type = codes "function";
  name = tool.name;
  description = tool.description;
  parameters_type = codes "object";
  properties = convert_tool_params tool.parameters;
  required = extract_required_params tool.parameters;
}

-- convertTools; no tools give nil.
unfoldable pub convert_tools : {W : Type 0} → List (Tool W) → List ApiTool
unfolding convert_tool
convert_tools [] = []
convert_tools (tool ∷ tools) = convert_tool tool ∷ convert_tools tools

-- Chat
unfoldable pub chat :
    {W : Type 0}
    → OllamaClient W
    → Text
    → Text
    → List (Tool W)
    → W
    → W × Result Text (Text × List ToolCall)
unfolding messages after_chat convert_tools
chat c prompt conversation_context tools w =
    let (w', answer) =
      c.api
        (record {
          model = c.model;
          messages = messages c.system_message conversation_context prompt;
          tools = convert_tools tools;
        })
        w in
    (w', after_chat answer)
