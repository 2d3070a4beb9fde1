-- ===== src/Llm.antt =====
-- internal/llm: tool calls and the executor that runs them.
-- A map of arguments is the list that one iteration over it gives, each value as `%v` prints it. `W` is what tools act on.

mod Tests
pub mod Execution
pub mod Ollama
pub mod Schema
pub mod Declared
pub mod Reports
pub mod Registry
use ai_assistant_driver.Common.{
  Option, none, some, List, [], ◌∷◌, Text, text_eq, if◌then◌else◌, Result, ok, err, codes, ◌++◌,
  is_nil,
}
use ai_assistant_driver.Common.Maps.{text_key, find, put}
use ai_assistant_driver.Llm.Schema.{Fields}

abbrev pub Arguments : Type 0
Arguments = List (Text × Text)

pub record Tool (W : Type 0) : Type 0 where
  pub name : Text
  pub description : Text
  pub parameters : Option Fields
  pub execute : Arguments → W → W × Result Text Text

pub record ToolCall : Type 0 where
  pub id : Text
  pub name : Text
  pub arguments : Arguments

pub record ToolResult : Type 0 where
  pub call_id : Text
  pub result : Text
  pub error : Option Text

-- `tools map[string]Tool`.
abbrev pub ToolExecutor : Type 0 → Type 0
ToolExecutor W = List (Text × Tool W)

-- The error of a call of a tool that is not registered.
abbrev pub not_found : Text → Text
not_found name = codes "tool not found: " ++ name

module _ {W : Type 0} where
  unfoldable pub register : List (Tool W) → ToolExecutor W → ToolExecutor W
  unfolding put
  register [] tools = tools
  register (tool ∷ rest) tools = register rest (put tool.name tool tools)

  run_tool : Option (Tool W) → ToolCall → W → W × ToolResult
  run_tool none call w =
      (w, record { call_id = call.id; result = []; error = some (not_found call.name) })
  run_tool (some tool) call w =
      let (w', answer) = tool.execute call.arguments w in
      (
        w',
        elim answer [
          | err e ↦ record { call_id = call.id; result = []; error = some e }
          | ok r ↦ record { call_id = call.id; result = r; error = none }
        ],
      )

  unfoldable pub execute : ToolExecutor W → ToolCall → W → W × ToolResult
  unfolding run_tool find
  execute tools call w = run_tool (find call.name tools) call w

  unfoldable pub execute_all : ToolExecutor W → List ToolCall → W → W × List ToolResult
  unfolding execute
  execute_all tools [] w = (w, [])
  execute_all tools (call ∷ rest) w =
      let (w', result) = execute tools call w in
      let (w'', results) = execute_all tools rest w' in (w'', result ∷ results)

  -- One order in which GetTools may return the tools.
  unfoldable pub get_tools : ToolExecutor W → List (Tool W)
  get_tools [] = []
  get_tools ((k, tool) ∷ rest) = tool ∷ get_tools rest
