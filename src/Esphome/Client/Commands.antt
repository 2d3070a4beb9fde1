-- ===== src/Esphome/Client/Commands.antt =====
-- internal/esphome/client.go: what the client sends for the controller's commands, and how it comes
-- and goes.
use ai_assistant_driver.Common.{
  ℕ, Bool, true, false, ◌||◌, not, List, [], ◌∷◌, ◌++◌, ◌==◌, if◌then◌else◌, is_nil, Text, codes,
}
use ai_assistant_driver.Esphome.Command.{CommandType, Command, Payload, media_player_payload}
use ai_assistant_driver.Esphome.Client.{
  run_end, stt_start, stt_end, stt_vad_start, stt_vad_end, tts_start, tts_end, event_response,
  assistant_request, media_player_command, subscribe_voice_assistant, start_voice_assistant, Client,
  send_message,
}

abbrev pub dropping : Client × Bool → Client
dropping (c, works) = c

abbrev text_pair : Text → Text → List (Text × Text)
text_pair name value = if is_nil value then [] else (name, value) ∷ []

abbrev stt_text : Payload → Text
stt_text (Payload.stt_end_payload text) = text
stt_text _ = []

-- sendSTTEvent; the start passes no payload.
unfoldable pub send_stt_event : Bool → Payload → Client → Client
unfolding send_message
send_stt_event true payload c = dropping (send_message (event_response stt_start []) c)
send_stt_event false payload c =
    dropping (send_message (event_response stt_end (text_pair (codes "text") (stt_text payload))) c)

unfoldable pub send_vad_event : Bool → Client → Client
unfolding send_message
send_vad_event vad_end c =
    dropping (send_message (event_response (if vad_end then stt_vad_end else stt_vad_start) []) c)

abbrev pub tts_text : Payload → Text
tts_text (Payload.tts_end_payload text audio_url) = text
tts_text _ = []

abbrev tts_url : Payload → Text
tts_url (Payload.tts_end_payload text audio_url) = audio_url
tts_url _ = []

-- sendTTSEvent; a payload of another type counts as an empty one.
unfoldable pub send_tts_event : Bool → Payload → Client → Client
unfolding send_message
send_tts_event start payload c = dropping (
    send_message
      (event_response (if start then tts_start else tts_end) (
        text_pair (codes "text") (tts_text payload)
        ++ (if start then [] else text_pair (codes "url") (tts_url payload))))
      c)

abbrev player_key : Payload → ℕ
player_key (media_player_payload key) = key
player_key _ = 0

unfoldable pub send_media_player_command : Payload → ℕ → Client → Client
unfolding send_message
send_media_player_command payload command c =
    let key = player_key payload in
    if key == 0 then c else dropping (send_message (media_player_command key command) c)

abbrev send_voice_assistant_end : Client → Client
send_voice_assistant_end c = dropping (send_message (event_response run_end []) c)

abbrev send_voice_assistant_start : Client → Client
send_voice_assistant_start c = dropping (send_message (assistant_request true) c)

unfoldable pub process_command : Command → Client → Client
unfolding send_message
process_command cmd c = if not c.connected || not c.attached then c else (elim cmd.type [
  | CommandType.stt_start ↦ send_stt_event true Payload.nothing c
  | CommandType.stt_end ↦ send_stt_event false cmd.payload c
  | CommandType.vad_start ↦ send_vad_event false c
  | CommandType.vad_end ↦ send_vad_event true c
  | CommandType.tts_start ↦ send_tts_event true cmd.payload c
  | CommandType.tts_end ↦ send_tts_event false cmd.payload c
  | CommandType.voice_assistant_start ↦ send_voice_assistant_start c
  | CommandType.voice_assistant_end ↦ send_voice_assistant_end c
  | CommandType.volume_up ↦ send_media_player_command cmd.payload 6 c
  | CommandType.volume_down ↦ send_media_player_command cmd.payload 7 c
])

-- handleCommands takes the oldest command of the channel.
unfoldable pub handle_command : Client → Client
handle_command c = elim c.command_channel [
  | [] ↦ c
  | cmd ∷ rest ↦ process_command cmd (record c { command_channel = rest })
]

-- SubscribeVoiceAssistant; false for an error.
unfoldable pub subscribe : Client → Client × Bool
unfolding send_message
subscribe c =
    if not c.connected || not c.attached
    then (c, false)
    else let (c1, subscribed) = send_message subscribe_voice_assistant c in
      if subscribed then send_message start_voice_assistant c1 else (c1, false)

-- Connect, given which of its steps failed: dialling, the greeting, the two requests.
unfoldable pub connect : Bool → Client → Client × Bool
connect works c =
    if c.connected
    then (c, true)
    else if works
    then (record c { attached = true; connected = true }, true)
    else (c, false)

-- The start of the reconnection handler's round.
unfoldable pub connection_lost : Client → Client
connection_lost c = record c { connected = false; attached = false }

unfoldable pub close_client : Client → Client
close_client c = if c.closed then c else record c { closed = true; connected = false }
