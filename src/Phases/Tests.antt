-- ===== src/Phases/Tests.antt =====
-- The thinking phase at concrete inputs. The world is the number of questions asked so far.
use ai_assistant_driver.Common.{
  ℕ, ◌≤◌, zero, suc, ◌+◌, ◌≡◌, ◌≢◌, refl, false, none, some, List, [], ◌∷◌, Text, codes, Result, ok,
  arith,
}
use ai_assistant_driver.Llm.{Tool, ToolCall, ToolExecutor, execute_all}
use ai_assistant_driver.Llm.Ollama
use ai_assistant_driver.Llm.Ollama.{OllamaClient}
use ai_assistant_driver.Phases.Thinking
use ai_assistant_driver.Phases.Answered.{run_says}
use ai_assistant_driver.Phases.{Services}
use ai_assistant_driver.Phases.Thinking.{tool_loop, build_context}
use ai_assistant_driver.Phases.Rounds.{Exchange, asked_nothing, round, next_context, tool_loop_iff}

abbrev clock : Tool ℕ
clock = record {
  name = codes "clock";
  description = [];
  parameters = none;
  execute = λ args w. (w, ok (codes "noon"));
}

abbrev executor : ToolExecutor ℕ
executor = (codes "clock", clock) ∷ []

abbrev ask_clock : ToolCall
ask_clock = record {
  id = codes "1";
  name = codes "clock";
  arguments = (codes "zone", codes "utc") ∷ [];
}

abbrev service_of : (ℕ → Result Text (Text × List ToolCall)) → Services ℕ
service_of answer = record {
  chat = λ prompt context tools w. (w + 1, answer w);
  history_context = λ transcript w. [];
  add_message = λ transcript response w. w;
  synthesize = λ text w. (w, ok []);
  save_wav_file = λ pcm w. (w, ok []);
}

-- It asks for the clock once more, then answers.
abbrev answers : ℕ → Result Text (Text × List ToolCall)
answers zero = ok ([], ask_clock ∷ [])
answers (suc w) = ok (codes "noon", [])

abbrev patient : Services ℕ
patient = service_of answers

context_text :
    build_context [] (ask_clock ∷ []) (execute_all executor (ask_clock ∷ []) 0).1
    ≡ codes "Tool clock(zone=utc) returned: noon\n"
unfolding build_context execute_all
context_text = refl

two_rounds : tool_loop patient executor 5 [] [] (ask_clock ∷ []) 0 ≡ (2, some (codes "noon"))
unfolding tool_loop execute_all
two_rounds = refl

abbrev first_context : Text
first_context = next_context patient executor [] (ask_clock ∷ []) 0

asked_twice :
    (n : ℕ) × (n ≤ 5) × Exchange patient executor 2 (codes "noon") n [] [] (ask_clock ∷ []) 0
unfolding execute_all
asked_twice = (
  2,
  omega arith,
  round 1 [] ask_clock [] 0 1 [] (ask_clock ∷ []) refl (
      round 0 first_context ask_clock [] 1 2 (codes "noon") [] refl (
        asked_nothing (next_context patient executor first_context (ask_clock ∷ []) 1)
          (codes "noon") 2 refl refl)),
)

it_is_noon : tool_loop patient executor 5 [] [] (ask_clock ∷ []) 0 ≡ (2, some (codes "noon"))
it_is_noon =
    (tool_loop_iff patient executor 2 (codes "noon") 5 [] [] (ask_clock ∷ []) 0).1 asked_twice

-- The client library asks for the clock first, then answers in one response.
abbrev library : OllamaClient ℕ
library = record {
  api = λ request w. (
    w + 1,
    (
      elim w [
        | zero ↦ record { content = []; tool_calls = ask_clock ∷ [] } ∷ []
        | suc n ↦ record { content = codes "noon"; tool_calls = [] } ∷ []
      ],
      none,
    ),
  );
  model = codes "llama3";
  system_message = codes "You are a voice assistant.";
}

abbrev backed : Services ℕ
backed = record patient { chat = Ollama.chat library }

run_says_example : (Thinking.run backed executor 3 false (codes "what time is it") 0).1 ≢ some []
run_says_example = run_says backed executor library refl 3 false (codes "what time is it") 0
