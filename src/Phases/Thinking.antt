-- ===== src/Phases/Thinking.antt =====
-- internal/phases/thinking.go: ask the model, and run the tools it asks for until it answers.
use ai_assistant_driver.Common.{
  ℕ, zero, suc, Bool, true, false, not, ◌&&◌, Option, none, some, List, [], ◌∷◌, ◌++◌,
  if◌then◌else◌, is_nil, Text, codes, Result, ok, err,
}
use ai_assistant_driver.Llm.{ToolExecutor, ToolCall, ToolResult, Arguments, execute_all, get_tools}
use ai_assistant_driver.Phases.{Services}

abbrev pub error_response : Text
error_response = codes "Sorry, I couldn't process that request."

-- The loop over the arguments; `sofar` is `argsStr`.
unfoldable args_str : Text → Arguments → Text
args_str sofar [] = sofar
args_str sofar ((k, v) ∷ rest) =
    args_str ((if is_nil sofar then sofar else sofar ++ codes ", ") ++ k ++ codes "=" ++ v) rest

unfoldable tool_result_message : Text → Arguments → Text → Text
unfolding args_str
tool_result_message tool_name args result =
    codes "Tool "
    ++ tool_name
    ++ codes "("
    ++ args_str [] args
    ++ codes ") returned: "
    ++ result
    ++ codes "\n"

abbrev result_text : ToolResult → Text
result_text r = elim r.error [ some e ↦ codes "Error: " ++ e | none ↦ r.result ]

-- The loop over the calls; a call without a result has the empty text.
unfoldable tool_results : List ToolCall → List ToolResult → Text
unfolding tool_result_message
tool_results [] results = []
tool_results (call ∷ calls) [] =
    tool_result_message call.name call.arguments [] ++ tool_results calls []
tool_results (call ∷ calls) (r ∷ results) =
    tool_result_message call.name call.arguments (result_text r) ++ tool_results calls results

unfoldable pub build_context : Text → List ToolCall → List ToolResult → Text
unfolding tool_results
build_context context calls results =
    (if is_nil context then [] else context ++ codes "\n\n") ++ tool_results calls results

-- The condition of the loop: calls and no text.
abbrev pub asks_for_tools : Text → List ToolCall → Bool
asks_for_tools response calls = not (is_nil calls) && is_nil response

-- What follows a call of Chat: an error ends in the apology, an answer goes on to the loop.
unfoldable pub after_chat :
    {W : Type 0}
    → (Text → Text → List ToolCall → W → W × Option Text)
    → Text
    → W × Result Text (Text × List ToolCall)
    → W × Option Text
after_chat loop context (w, err e) = (w, some error_response)
after_chat loop context (w, ok (response, calls)) = loop context response calls w

module _ {W : Type 0} (s : Services W) (executor : ToolExecutor W) where
  -- `for len(toolCalls) > 0 && len(response) == 0`, with fuel for its rounds; `none` when the
  -- fuel is used up and the model still asks for tools.
  unfoldable pub tool_loop : ℕ → Text → Text → List ToolCall → W → W × Option Text
  unfolding after_chat
  tool_loop zero context response calls w =
      if asks_for_tools response calls then (w, none) else (w, some response)
  tool_loop (suc fuel) context response calls w = elim (asks_for_tools response calls) [
    | false ↦ (w, some response)
    | true ↦
        let (w', results) = execute_all executor calls w in
        let context' = build_context context calls results in
        after_chat (tool_loop fuel) context' (s.chat [] context' (get_tools executor) w')
  ]

  -- ThinkingPhase.Run; `has_history` is `historyManager != nil`.
  unfoldable pub run : ℕ → Bool → Text → W → W × Option Text
  unfolding tool_loop
  run fuel has_history transcript w =
      let context = if has_history then s.history_context transcript w else [] in
      after_chat (tool_loop fuel) context (s.chat transcript context (get_tools executor) w)
