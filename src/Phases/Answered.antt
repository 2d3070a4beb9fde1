-- ===== src/Phases/Answered.antt =====
-- The thinking phase with the Ollama client: it never ends with nothing to say.
use ai_assistant_driver.Common.{
  ℕ, zero, suc, ◌≡◌, ◌≢◌, refl, false, ◌&&◌, Option, none, some, List, [], ◌∷◌, Text, Result, ok,
  err, Bool, Bool-cases, inl, inr, is_nil,
}
use ai_assistant_driver.Llm.{ToolExecutor, Tool, ToolCall}
use ai_assistant_driver.Llm.Ollama
use ai_assistant_driver.Llm.Ollama.{OllamaClient, ChatResponse, receive, messages, convert_tools}
use ai_assistant_driver.Phases.{Services}
use ai_assistant_driver.Phases.Thinking.{asks_for_tools, after_chat, tool_loop, run}

-- An answer says something, or asks for a tool.
abbrev Says : Text × List ToolCall → Type 0
Says (response, calls) = (is_nil response && is_nil calls) ≡ false

abbrev SaysOrFails : {W : Type 0} → W × Result Text (Text × List ToolCall) → Type 0
SaysOrFails (w, ok answer) = Says answer
SaysOrFails (w, err e) = Unit

non_empty-SaysOrFails :
    {W : Type 0} (w : W) (r : Text × List ToolCall) → SaysOrFails (w, Ollama.non_empty r)
unfolding Ollama.non_empty
non_empty-SaysOrFails w ([], []) = tt
non_empty-SaysOrFails w ([], call ∷ calls) = refl
non_empty-SaysOrFails w (b ∷ text, calls) = refl

answer-SaysOrFails :
    {W : Type 0} (w : W) (x : List ChatResponse × Option Text)
    → SaysOrFails (w, Ollama.after_chat x)
unfolding Ollama.after_chat
answer-SaysOrFails w (responses, some e) = tt
answer-SaysOrFails w (responses, none) = non_empty-SaysOrFails w (receive responses [] [])

chat-SaysOrFails :
    {W : Type 0} (c : OllamaClient W) (prompt context : Text) (tools : List (Tool W)) (w : W)
    → SaysOrFails (Ollama.chat c prompt context tools w)
unfolding Ollama.chat
chat-SaysOrFails c prompt context tools w =
    let (w', answer) =
      c.api
        (record {
          model = c.model;
          messages = messages c.system_message context prompt;
          tools = convert_tools tools;
        })
        w in
    answer-SaysOrFails w' answer

final-Says :
    (response : Text) (calls : List ToolCall)
    → Says (response, calls)
    → asks_for_tools response calls ≡ false
    → response ≢ []
final-Says [] [] h done e = cc
final-Says [] (call ∷ calls) h done e = cc
final-Says (b ∷ response) calls h done e = cc

module _ {W : Type 0} (s : Services W) (executor : ToolExecutor W) (c : OllamaClient W) where
  module _ (backed : s.chat ≡ Ollama.chat c) where
    backed-SaysOrFails :
        (prompt context : Text) (tools : List (Tool W)) (w : W)
        → SaysOrFails (s.chat prompt context tools w)
    backed-SaysOrFails prompt context tools w =
        rw backed (chat-SaysOrFails c prompt context tools w)

    after_chat-Says :
        (loop : Text → Text → List ToolCall → W → W × Option Text) (context : Text)
        (x : W × Result Text (Text × List ToolCall))
        → ((context response : Text) (calls : List ToolCall) (w : W)
            → Says (response, calls)
            → (loop context response calls w).1 ≢ some [])
        → SaysOrFails x
        → (after_chat loop context x).1 ≢ some []
    unfolding after_chat
    after_chat-Says loop context (w, err e) each h = λ e. cc
    after_chat-Says loop context (w, ok (response, calls)) each h = each context response calls w h

    loop-Says :
        (fuel : ℕ) (context response : Text) (calls : List ToolCall) (w : W)
        → Says (response, calls)
        → (tool_loop s executor fuel context response calls w).1 ≢ some []
    unfolding tool_loop
    loop-Says zero context response calls w h = elim (Bool-cases (asks_for_tools response calls)) [
      | inl asks ↦ rw (tool_loop, asks) (λ e. cc)
      | inr done ↦ rw (tool_loop, done) (λ e. final-Says response calls h done cc)
    ]
    loop-Says (suc fuel) context response calls w h =
        elim (Bool-cases (asks_for_tools response calls)) [
          | inl asks ↦
              rw (tool_loop, asks)
                (after_chat-Says (tool_loop s executor fuel) _ _ (loop-Says fuel)
                  (backed-SaysOrFails _ _ _ _))
          | inr done ↦ rw (tool_loop, done) (λ e. final-Says response calls h done cc)
        ]

    -- With the Ollama client behind the services the thinking phase never returns an empty text,
    -- whatever the model and the tools answer.
    pub run_says :
        (fuel : ℕ) (has_history : Bool) (transcript : Text) (w : W)
        → (run s executor fuel has_history transcript w).1 ≢ some []
    unfolding run
    run_says fuel has_history transcript w =
        after_chat-Says (tool_loop s executor fuel) _ _ (loop-Says fuel)
          (backed-SaysOrFails _ _ _ _)
