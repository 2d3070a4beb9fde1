-- ===== src/Esphome/Wire/Sending.antt =====
-- internal/esphome/esphome_client.go: the messages that the client sends, each with the number of its
-- type, and their frames on the connection. proto.Marshal is a parameter.
use ai_assistant_driver.Common.{
  ℕ, ◌≡◌, Bool, true, false, Option, none, some, List, [], ◌∷◌, if◌then◌else◌, Bytes,
}
use ai_assistant_driver.Esphome.Client.{
  Outgoing, event_response, assistant_response, assistant_request, media_player_command,
  subscribe_voice_assistant, start_voice_assistant,
}
use ai_assistant_driver.Esphome.Wire.{Message, Router}
use ai_assistant_driver.Esphome.Wire.Requests.{send_frame}
use ai_assistant_driver.Esphome.Wire.Frames.{IsReadable}

-- The number that goes with each message; StartVoiceAssistant sends a request, too.
unfoldable pub type_of : Outgoing → ℕ
type_of (event_response type pairs) = 92
type_of (assistant_response port error) = 91
type_of (assistant_request start) = 90
type_of (media_player_command key command) = 65
type_of subscribe_voice_assistant = 89
type_of start_voice_assistant = 90

module _ (marshal : Outgoing → Option Bytes) where
  abbrev message_with : Outgoing → Bytes → Message
  message_with o body = record { type_id = type_of o; body = body }

  abbrev pub send_marshalled : Bool → Outgoing → Option Bytes → Router → Router × Bool
  send_marshalled works o none r = (r, false)
  send_marshalled works o (some body) r =
      if works then (send_frame (message_with o body) r, true) else (r, false)

  -- sendWithTypeID, given whether the write works; false for an error.
  unfoldable pub send_with_type_id : Bool → Outgoing → Router → Router × Bool
  unfolding send_frame type_of
  send_with_type_id works o r = send_marshalled works o (marshal o) r

  -- SendMediaPlayerCommand
  unfoldable send_media_player_command : Bool → ℕ → ℕ → Router → Router × Bool
  send_media_player_command works key command r =
      send_with_type_id works (media_player_command key command) r

  -- SubscribeVoiceAssistant
  unfoldable send_subscribe_voice_assistant : Bool → Router → Router × Bool
  send_subscribe_voice_assistant works r = send_with_type_id works subscribe_voice_assistant r

  -- StartVoiceAssistant
  unfoldable send_start_voice_assistant : Bool → Router → Router × Bool
  send_start_voice_assistant works r = send_with_type_id works start_voice_assistant r

  -- Messages in turn over a connection that works.
  unfoldable pub send_each : List Outgoing → Router → Router
  unfolding send_with_type_id
  send_each [] r = r
  send_each (o ∷ os) r = send_each os (send_with_type_id true o r).0

  -- A message that is marshalled to this one, and that a peer can read.
  pub record IsSendable (parses : ℕ → Bytes → Bool) (o : Outgoing) (m : Message) : Type 0 where
    pub typed : m.type_id ≡ type_of o
    pub marshalled : marshal o ≡ some m.body
    pub readable : IsReadable parses m
