-- ===== src/History/Prompt.antt =====
-- internal/history/manager.go: the texts made from the buffer. `%d`, `%s` and the builder become
-- concatenation of bytes.
use ai_assistant_driver.Common.{
  ℕ, ◌+◌, ◌&&◌, List, [], ◌∷◌, ◌++◌, if◌then◌else◌, is_nil, Text, codes, decimal,
}

pub record Message : Type 0 where
  pub transcript : Text
  pub response : Text
  pub timestamp : ℕ

-- The loop over the buffer; `i` is the index that `range` has reached.
unfoldable pub conversation : ℕ → List Message → Text
conversation i [] = []
conversation i (msg ∷ rest) =
    decimal (i + 1)
    ++ codes ". User: \""
    ++ msg.transcript
    ++ codes "\"\n   Assistant: \""
    ++ msg.response
    ++ codes "\"\n\n"
    ++ conversation (i + 1) rest

unfoldable pub summarization_prompt : Text → List Message → Text
summarization_prompt summary buffer =
    codes "Summarize this conversation concisely, preserving key information, preferences, and "
    ++ codes "important details.\nFocus on facts the assistant should remember for future "
    ++ codes "interactions. Keep it brief - 2-4 sentences.\n\nPrevious summary (if any):\n"
    ++ summary
    ++ codes "\n\nRecent conversation:\n"
    ++ conversation 0 buffer
    ++ codes "\n\nProvide a concise summary:"

-- GetContext on the summary and the buffer that it reads under the lock.
unfoldable pub get_context : Text → List Message → Text → Text
get_context summary buffer transcript =
    if is_nil summary && is_nil buffer
    then []
    else (codes "## Conversation Context\n\n"
        ++ (if is_nil summary then [] else (codes "Previous summary:\n" ++ summary ++ codes "\n\n"))
        ++ (if is_nil buffer then [] else (codes "Recent conversation:\n" ++ conversation 0 buffer))
        ++ codes "---\nCurrent request: "
        ++ transcript)
