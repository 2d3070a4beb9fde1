-- ===== src/Llm/Tests.antt =====
-- The executor at concrete inputs; the world counts the tools that ran.
use mathlib.Core.Bool.{Bool-set}
use mathlib.Core.List.{Pairwise-pair}
use mathlib.Core.List.Permᴰ
use ai_assistant_driver.Common.{◌≡◌, refl, ℕ, ◌+◌, none, List, [], ◌∷◌, Text, codes, ok}
use ai_assistant_driver.Llm.{Tool, ToolCall, ToolExecutor, register, execute_all}
use ai_assistant_driver.Llm.Registry.{registry, HaveNames, register-Perm}

abbrev tool_of : Text → Text → Tool ℕ
tool_of name answer = record {
  name = name;
  description = [];
  parameters = none;
  execute = λ args w. (w + 1, ok answer);
}

abbrev tools : ToolExecutor ℕ
tools = (codes "weather", tool_of (codes "weather") (codes "sun")) ∷ []

abbrev stocks : Tool ℕ
stocks = tool_of (codes "stocks") (codes "up")

abbrev network : Tool ℕ
network = tool_of (codes "network") (codes "fine")

two-HaveNames : HaveNames (stocks ∷ network ∷ [])
two-HaveNames = (Pairwise-pair (λ a b. Bool-set _ _)).1 refl

register-Perm_example :
    (registry (register (stocks ∷ network ∷ []) tools)
      ≡ registry (register (network ∷ stocks ∷ []) tools))
    × ((calls : List ToolCall) (w : ℕ)
        → execute_all (register (stocks ∷ network ∷ []) tools) calls w
          ≡ execute_all (register (network ∷ stocks ∷ []) tools) calls w)
register-Perm_example = register-Perm (Permᴰ.swap refl refl) two-HaveNames tools
