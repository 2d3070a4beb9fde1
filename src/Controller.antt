-- ===== src/Controller.antt =====
-- internal/controller: the phases of a conversation, driven by the device's events.
-- The select of `Run` serves one event at a time, so a run is a list of events. Commands that were
-- sent are kept in order; the blocking send is taken to get through, since the device's client
-- drains that channel.

mod Tests
pub mod Handlers
pub mod Fixtures
pub mod Settled
pub mod Triggers
pub mod Speaking
pub mod Bursts
pub mod Conversation
pub mod Endings
pub mod Turns
use ai_assistant_driver.Common.{
  ℕ, Bool, Option, List, [], ◌∷◌, ◌++◌, none, Text, Bytes, Result, ok, err, true, false,
}
use ai_assistant_driver.Common.Channel.{try_send}
use ai_assistant_driver.Llm.{ToolExecutor}
use ai_assistant_driver.Phases.{Services}
use ai_assistant_driver.Esphome.Command.{Command}

pub data Phase : Type 0 where
  idle listening thinking reply : Phase

pub record ErrorEvent : Type 0 where
  pub phase : Phase
  pub message : Text
  pub recoverable : Bool

-- stt.Transcript: the text, with `none` for a nil pointer.
-- stt.Transcriber, over the world that the other services share.
pub record Transcriber (W : Type 0) : Type 0 where
  pub send_audio : Bytes → W → W × Option Text
  pub send_audio_stop : W → W × Option Text
  pub recv : W → W × Result Text (Option Text)
  pub close : W → W × Option Text
  pub reset : W → W
  pub reset_vad : W → W
  pub silence_detected : W → W × Bool

pub record Config (W : Type 0) : Type 0 where
  pub stt : Transcriber W
  pub services : Services W
  pub has_history : Bool
  pub executor : ToolExecutor W

-- `commands` is what was sent, `errors` what the channel of ten holds.
pub record Controller (W : Type 0) : Type 0 where
  pub phase : Phase
  pub transcript : Text
  pub llm_response : Text
  pub tts_cleanup : Option (W → W)
  pub commands : List Command
  pub errors : List ErrorEvent
  pub world : W

abbrev pub errors_capacity : ℕ
errors_capacity = 10

-- New
unfoldable pub new_controller : {W : Type 0} → W → Controller W
new_controller w = record {
  phase = idle;
  transcript = [];
  llm_response = [];
  tts_cleanup = none;
  commands = [];
  errors = [];
  world = w;
}

unfoldable pub send_error : {W : Type 0} → ErrorEvent → Controller W → Controller W
unfolding try_send
send_error e c = record c { errors = try_send errors_capacity e c.errors }

abbrev pub send_command : {W : Type 0} → Command → Controller W → Controller W
send_command cmd c = record c { commands = c.commands ++ cmd ∷ [] }
