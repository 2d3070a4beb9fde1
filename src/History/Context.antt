-- ===== src/History/Context.antt =====
-- The context that the language model is given.
use ai_assistant_driver.Common.{◌≡◌, refl, ◌↔◌, List, [], ◌∷◌, Text}
use ai_assistant_driver.History.Prompt.{Message, get_context}

-- The context is empty exactly if there is neither a summary nor a message.
get_context-nil :
    (summary : Text) (buffer : List Message) (transcript : Text)
    → (get_context summary buffer transcript ≡ []) ↔ ((summary ≡ []) × (buffer ≡ []))
unfolding get_context
get_context-nil [] [] transcript = (λ e. (refl, refl), λ h. refl)
get_context-nil (c ∷ summary) buffer transcript = (λ e. cc, λ h. cc)
get_context-nil [] (msg ∷ buffer) transcript = (λ e. cc, λ h. cc)
