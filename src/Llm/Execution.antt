-- ===== src/Llm/Execution.antt =====
-- The executor's map, and the results that go with the calls.
use ai_assistant_driver.Common.{
  ◌≡◌, refl, ap, Option, none, some, List, [], ◌∷◌, map, All, if◌then◌else◌, Text, text_eq, arith,
  Result, ok, err,
}
use ai_assistant_driver.Common.Maps.{text_key, find, put, find-put}
use ai_assistant_driver.Llm.{
  Tool, ToolCall, ToolResult, Arguments, ToolExecutor, register, not_found, run_tool, execute,
  execute_all,
}

-- The last tool of the list with the name, if there is one; else the other.
abbrev last_named : {W : Type 0} → Text → List (Tool W) → Option (Tool W) → Option (Tool W)
last_named k [] otherwise = otherwise
last_named k (tool ∷ rest) otherwise =
    last_named k rest (if text_eq tool.name k then some tool else otherwise)

module _ {W : Type 0} where
  -- After Register a name stands for the last registered tool of that name, and for what it stood
  -- for before if there is none.
  pub find-register :
      (k : Text) (ts : List (Tool W)) (tools : ToolExecutor W)
      → find k (register ts tools) ≡ last_named k ts (find k tools)
  unfolding register
  find-register k [] tools = refl
  find-register k (tool ∷ rest) tools =
      rw (find-register k rest (put tool.name tool tools))
        (ap (last_named k rest) (find-put k tool.name tool tools))

  run_tool-call_id :
      (found : Option (Tool W)) (call : ToolCall) (w : W)
      → (run_tool found call w).1.call_id ≡ call.id
  unfolding run_tool
  run_tool-call_id none call w = refl
  run_tool-call_id (some tool) call w = ground arith

  -- ExecuteAll gives one result for each call, in the order of the calls.
  execute_all-call_id :
      (tools : ToolExecutor W) (calls : List ToolCall) (w : W)
      → map (λ r. r.call_id) (execute_all tools calls w).1 ≡ map (λ c. c.id) calls
  unfolding execute_all execute
  execute_all-call_id tools [] w = refl
  execute_all-call_id tools (call ∷ rest) w = cc (
    run_tool-call_id (find call.name tools) call w,
    execute_all-call_id tools rest (execute tools call w).0,
  )

  -- Calls of names that are not registered change nothing, and each gives the error that names it.
  execute_all_unknown :
      (tools : ToolExecutor W) (calls : List ToolCall) (w : W)
      → All (λ c. find c.name tools ≡ none) calls
      → execute_all tools calls w ≡ (
        w,
        map (λ c. record { call_id = c.id; result = []; error = some (not_found c.name) }) calls,
      )
  unfolding execute_all execute run_tool
  execute_all_unknown tools [] w h = refl
  execute_all_unknown tools (call ∷ rest) w (unknown, more) =
      rw unknown (rw (execute_all_unknown tools rest w more))

-- The result of a call whose tool answers.
abbrev result_for : ToolCall → Result Text Text → ToolResult
result_for call (ok r) = record { call_id = call.id; result = r; error = none }
result_for call (err e) = record { call_id = call.id; result = []; error = some e }

-- What Execute does with the tool of the name, or without one.
abbrev pub run_found :
    {W : Type 0} → Option (Arguments → W → W × Result Text Text) → ToolCall → W → W × ToolResult
run_found none call w = (w, result_for call (err (not_found call.name)))
run_found (some run) call w =
    let (w', answer) = run call.arguments w in (w', result_for call answer)

abbrev pub execute_of :
    {W : Type 0} → Option (Tool W) → Option (Arguments → W → W × Result Text Text)
execute_of none = none
execute_of (some tool) = some tool.execute

run_tool-run_found :
    {W : Type 0} (found : Option (Tool W)) (call : ToolCall) (w : W)
    → run_tool found call w ≡ run_found (execute_of found) call w
unfolding run_tool
run_tool-run_found none call w = refl
run_tool-run_found (some tool) call w = ground arith

pub execute-run_found :
    {W : Type 0} (tools : ToolExecutor W) (call : ToolCall) (w : W)
    → execute tools call w ≡ run_found (execute_of (find call.name tools)) call w
unfolding execute
execute-run_found tools call w = run_tool-run_found (find call.name tools) call w
