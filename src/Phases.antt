-- ===== src/Phases.antt =====
-- internal/phases: what a phase needs of the other services, and how a phase can end.

mod Tests
pub mod Thinking
pub mod Rounds
pub mod Answered
pub mod Reply
use ai_assistant_driver.Common.{Option, List, Text, Bytes, Result}
use ai_assistant_driver.Llm.{Tool, ToolCall}

-- A call that returns, that panics, or whose loop is not done when the fuel of the model is.
pub data Outcome (A : Type 0) : Type 0 where
  returned : A → Outcome A
  panicked : Outcome A
  unfinished : Outcome A

-- llm.Client, tts.Synthesizer, tts.SaveWAVFile and the history, as interfaces over one world.
pub record Services (W : Type 0) : Type 0 where
  pub chat : Text → Text → List (Tool W) → W → W × Result Text (Text × List ToolCall)
  pub history_context : Text → W → Text
  pub add_message : Text → Text → W → W
  pub synthesize : Text → W → W × Result Text Bytes
  pub save_wav_file : Bytes → W → W × Result Text Text

-- phases.WAVServer: the URL, and the cleanup function.
pub record WavServer (W : Type 0) : Type 0 where
  pub serve_wav : Text → W → W × Result Text (Text × (W → W))
