-- ===== src/Esphome/Client.antt =====
-- internal/esphome/client.go: what the client makes of the device's messages and of the controller's
-- commands. Each handler runs alone; the channels are what has not been taken from them. A send to
-- the device is answered from a list, and works where the list has ended.
pub mod Commands
pub mod Buttons
pub mod Volume
pub mod Retry
pub mod Workers
pub mod Ordered
pub mod Listeners
pub mod Panics
mod Tests
use ai_assistant_driver.Common.Maps.{nat_key, find}
use ai_assistant_driver.Common.{
  ℕ, zero, suc, Bool, true, false, ◌&&◌, ◌||◌, not, Option, none, some, List, [], ◌∷◌, ◌++◌, ◌==◌,
  ltb, if◌then◌else◌, is_nil, Text, Bytes, codes, text_eq,
}
use ai_assistant_driver.Common.Channel.{try_send}
use ai_assistant_driver.Esphome.Command.{
  CommandType, Command, volume_up, volume_down, media_player_payload, contains_lower,
}
use ai_assistant_driver.Esphome.Event.{
  VoiceAssistantPhase, VoiceAssistantEvent, AudioEvent, MediaPlayerEvent,
}

-- api.VoiceAssistantEvent, as far as the program names it.
pub data EventType : Type 0 where
  voice_assistant_error run_start run_end stt_start stt_end : EventType
  stt_vad_start stt_vad_end tts_start tts_end other_event : EventType

-- The messages that handleMessage tells apart, with the fields it uses; light, switch and select
-- states are only logged.
pub data Incoming : Type 0 where
  voice_assistant_request : (start : Bool) → Incoming
  voice_assistant_event : (type : EventType) (pairs : List (Text × Text)) → Incoming
  voice_assistant_audio : (audio : Bytes) (end : Bool) → Incoming
  list_entities_binary_sensor : (key : ℕ) (name : Text) → Incoming
  list_entities_media_player : (key : ℕ) → Incoming
  binary_sensor_state : (key : ℕ) (state : Bool) → Incoming
  media_player_state : (key state volume : ℕ) (muted : Bool) → Incoming
  light_state switch_state select_state unhandled : Incoming

-- What the client sends.
pub data Outgoing : Type 0 where
  event_response : (type : EventType) (pairs : List (Text × Text)) → Outgoing
  assistant_response : (port : ℕ) (error : Bool) → Outgoing
  assistant_request : (start : Bool) → Outgoing
  media_player_command : (key command : ℕ) → Outgoing
  subscribe_voice_assistant start_voice_assistant : Outgoing

-- `attached` is `esphomeClient != nil`. Of the entries of a map the newest of a key counts.
pub record Client : Type 0 where
  pub connected : Bool
  pub closed : Bool
  pub attached : Bool
  pub event_channel : List VoiceAssistantEvent
  pub audio_channel : List AudioEvent
  pub media_player_channel : List MediaPlayerEvent
  pub command_channel : List Command
  pub binary_sensor_entities : List (ℕ × Text)
  pub media_player_key : ℕ
  pub button_last_state : List (ℕ × Bool)
  pub sends : List Bool
  pub sent : List Outgoing

unfoldable pub new_client : Client
new_client = record {
  connected = false;
  closed = false;
  attached = false;
  event_channel = [];
  audio_channel = [];
  media_player_channel = [];
  command_channel = [];
  binary_sensor_entities = [];
  media_player_key = 0;
  button_last_state = [];
  sends = [];
  sent = [];
}

-- esphomeClient.SendMessage, and whether it worked.
unfoldable pub send_message : Outgoing → Client → Client × Bool
send_message m c = elim c.sends [
  | [] ↦ (record c { sent = c.sent ++ m ∷ [] }, true)
  | false ∷ rest ↦ (record c { sends = rest }, false)
  | true ∷ rest ↦ (record c { sends = rest; sent = c.sent ++ m ∷ [] }, true)
]

unfoldable pub send_event : VoiceAssistantEvent → Client → Client
send_event e c = record c { event_channel = try_send 10 e c.event_channel }

unfoldable pub handle_voice_assistant_request : Bool → Client → Client
unfolding send_message send_event
handle_voice_assistant_request true c =
    let (c', works) = send_message (assistant_response 0 false) c in
    if works
    then send_event (record { phase = VoiceAssistantPhase.listening; error = [] }) c'
    else c'
handle_voice_assistant_request false c =
    send_event (record { phase = VoiceAssistantPhase.idle; error = [] }) c

unfoldable phase_of : EventType → VoiceAssistantPhase
phase_of voice_assistant_error = VoiceAssistantPhase.error
phase_of run_start = VoiceAssistantPhase.listening
phase_of stt_vad_start = VoiceAssistantPhase.thinking
phase_of stt_vad_end = VoiceAssistantPhase.thinking
phase_of tts_start = VoiceAssistantPhase.reply
phase_of _ = VoiceAssistantPhase.idle

-- The last value of the name `error_code`, or the given text.
unfoldable error_code : List (Text × Text) → Text → Text
error_code [] found = found
error_code ((name, value) ∷ pairs) found =
    error_code pairs (if text_eq name (codes "error_code") then value else found)

abbrev is_error : EventType → Bool
is_error voice_assistant_error = true
is_error _ = false

unfoldable pub handle_voice_assistant_event : EventType → List (Text × Text) → Client → Client
unfolding send_event phase_of error_code
handle_voice_assistant_event type pairs c =
    send_event
      (record { phase = phase_of type; error = if is_error type then error_code pairs [] else [] })
      c

unfoldable pub handle_voice_assistant_audio : Bytes → Bool → Client → Client
handle_voice_assistant_audio audio end c = record c {
  audio_channel = try_send 100 (record { audio = audio; end = end }) c.audio_channel;
}

abbrev pub name_or_empty : Option Text → Text
name_or_empty none = []
name_or_empty (some name) = name

abbrev pub known_true : Option Bool → Bool
known_true none = false
known_true (some b) = b

-- The command of a released button: down for a name with `left` in it.
unfoldable pub volume_command : Text → ℕ → Command
volume_command name player = record {
  type = if not (is_nil name) && contains_lower name (codes "left") then volume_down else volume_up;
  payload = media_player_payload player;
}

abbrev pub remember : ℕ → Bool → Client → Client
remember key state c = record c { button_last_state = (key, state) ∷ c.button_last_state }

-- Without a media player the handler returns before it remembers the state.
unfoldable pub handle_binary_sensor_state : ℕ → Bool → Client → Client
unfolding find volume_command
handle_binary_sensor_state key state c =
    if known_true (find key c.button_last_state) && not state
    then (if c.media_player_key == 0
        then c
        else let name = name_or_empty (find key c.binary_sensor_entities) in
          remember key state (record c {
            command_channel =
                try_send 10 (volume_command name c.media_player_key) c.command_channel;
          }))
    else remember key state c

unfoldable pub handle_list_entities_binary_sensor : ℕ → Text → Client → Client
handle_list_entities_binary_sensor key name c = record c {
  binary_sensor_entities = (key, name) ∷ c.binary_sensor_entities;
}

unfoldable pub handle_list_entities_media_player : ℕ → Client → Client
handle_list_entities_media_player key c = record c { media_player_key = key }

-- `state_name` is the String of the generated enumeration.
unfoldable pub handle_media_player_state : (ℕ → Text) → ℕ → ℕ → ℕ → Bool → Client → Client
handle_media_player_state state_name key state volume muted c = record c {
  media_player_channel =
      try_send 10 (record { key = key; state = state_name state; volume = volume; muted = muted })
        c.media_player_channel;
}

unfoldable pub handle_message : (ℕ → Text) → Incoming → Client → Client
handle_message state_name (voice_assistant_request start) c = handle_voice_assistant_request start c
handle_message state_name (voice_assistant_event type pairs) c =
    handle_voice_assistant_event type pairs c
handle_message state_name (voice_assistant_audio audio end) c =
    handle_voice_assistant_audio audio end c
handle_message state_name (list_entities_binary_sensor key name) c =
    handle_list_entities_binary_sensor key name c
handle_message state_name (list_entities_media_player key) c =
    handle_list_entities_media_player key c
handle_message state_name (binary_sensor_state key state) c = handle_binary_sensor_state key state c
handle_message state_name (media_player_state key state volume muted) c =
    handle_media_player_state state_name key state volume muted c
handle_message state_name _ c = c
