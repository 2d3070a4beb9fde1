-- ===== src/Esphome/Command.antt =====
-- internal/esphome/command.go: commands of the controller to the device, and the two searches in
-- entity names.
use ai_assistant_driver.Common.{
  ℕ, ◌+◌, Bool, ◌&&◌, ◌||◌, [], ◌∷◌, leb, if◌then◌else◌, map, Text, has_prefix,
}

pub data CommandType : Type 0 where
  stt_start stt_end vad_start vad_end tts_start tts_end : CommandType
  voice_assistant_start voice_assistant_end volume_up volume_down : CommandType

-- The values that the program puts into the `interface{}`.
pub data Payload : Type 0 where
  nothing : Payload
  stt_end_payload : (text : Text) → Payload
  tts_end_payload : (text audio_url : Text) → Payload
  media_player_payload : (key : ℕ) → Payload

pub record Command : Type 0 where
  pub type : CommandType
  pub payload : Payload

abbrev pub bare : CommandType → Command
bare t = record { type = t; payload = nothing }

-- strings.ToLower on ASCII.
abbrev to_lower : ℕ → ℕ
to_lower c = if leb b'A' c && leb c b'Z' then c + 32 else c

unfoldable contains : Text → Text → Bool
unfolding has_prefix
contains [] sub = has_prefix [] sub
contains (a ∷ s) sub = has_prefix (a ∷ s) sub || contains s sub

unfoldable pub contains_lower : Text → Text → Bool
unfolding contains
contains_lower s sub = contains (map to_lower s) sub
