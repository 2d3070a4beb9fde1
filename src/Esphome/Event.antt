-- ===== src/Esphome/Event.antt =====
-- internal/esphome/client.go: what the client tells the controller.
use ai_assistant_driver.Common.{ℕ, Bool, Text, Bytes}

pub data VoiceAssistantPhase : Type 0 where
  idle listening thinking reply error muted not_ready : VoiceAssistantPhase

pub record VoiceAssistantEvent : Type 0 where
  pub phase : VoiceAssistantPhase
  pub error : Text

-- The Go field is `Data`.
pub record AudioEvent : Type 0 where
  pub audio : Bytes
  pub end : Bool

-- `volume` is the bit pattern of the float32, which is only handed on.
pub record MediaPlayerEvent : Type 0 where
  pub key : ℕ
  pub state : Text
  pub volume : ℕ
  pub muted : Bool
