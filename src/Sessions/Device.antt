-- ===== src/Sessions/Device.antt =====
-- From the messages of the device, over the channels of internal/esphome/client.go, to the listening
-- phase of the controller that takes them.
use ai_assistant_driver.Common.{
  ℕ, ◌+◌, ◌≤◌, ◌<◌, ◌≡◌, refl, ap, sym, ◌∙◌, Bool, true, false, List, some, [], ◌∷◌, ◌++◌, map,
  length, append_assoc, append-nil, length-append, is_nil, Text, Bytes, arith,
}
use ai_assistant_driver.Common.Channel.{try_send, try_send_room}
use ai_assistant_driver.Vad.Arithmetic.{Float}
use ai_assistant_driver.Vad.{reset, process_audio}
use ai_assistant_driver.Stt.{WireEvent, SttTranscriber, transcript}
use ai_assistant_driver.Llm.{ToolExecutor}
use ai_assistant_driver.Phases.{Services}
use ai_assistant_driver.Esphome.Command.{Command, bare, stt_start, vad_end}
use ai_assistant_driver.Esphome.Event.{VoiceAssistantPhase, VoiceAssistantEvent, AudioEvent}
use ai_assistant_driver.Esphome.Client.{
  Client, Incoming, voice_assistant_request, voice_assistant_audio, assistant_response,
  handle_message, send_message, send_event, handle_voice_assistant_request,
  handle_voice_assistant_audio,
}
use ai_assistant_driver.Controller.{Controller}
use ai_assistant_driver.Controller.Handlers.{Event, voice_assistant, audio, run, after_transcript}
use ai_assistant_driver.Sessions.{Recognizer, World, config_with}
use ai_assistant_driver.Sessions.Logged.{session_events}
use ai_assistant_driver.Sessions.Listening.{
  wake, chunk, chunks_of, listened, Continue, finished, hearing, at_rest, then_run, run-listening,
}

-- What Run can take from the client's channels, if it takes the events before the audio.
abbrev pub device_events : Client → List Event
device_events c = map voice_assistant c.event_channel ++ map audio c.audio_channel

abbrev pub audio_messages : List Bytes → List Incoming
audio_messages [] = []
audio_messages (b ∷ bs) = voice_assistant_audio b false ∷ audio_messages bs

abbrev sounds : List Bytes → List AudioEvent
sounds [] = []
sounds (b ∷ bs) = record { audio = b; end = false } ∷ sounds bs

chunks_of-sounds : (bs : List Bytes) → map audio (sounds bs) ≡ chunks_of bs
chunks_of-sounds [] = refl
chunks_of-sounds (b ∷ bs) = ap (λ es. chunk b ∷ es) (chunks_of-sounds bs)

module _ (state_name : ℕ → Text) where
  -- handleMessages on messages that it takes in turn.
  unfoldable pub handle_messages : List Incoming → Client → Client
  handle_messages [] c = c
  handle_messages (m ∷ ms) c = handle_messages ms (handle_message state_name m c)

  queued :
      (bs : List Bytes) (c : Client)
      → length c.audio_channel + length bs ≤ 100
      → let c' = handle_messages (audio_messages bs) c in
        (c'.event_channel ≡ c.event_channel) × (c'.audio_channel ≡ c.audio_channel ++ sounds bs)
  unfolding handle_messages handle_message handle_voice_assistant_audio
  queued [] c room = (refl, sym (append-nil c.audio_channel))
  queued (b ∷ bs) c room =
      let e : AudioEvent = record { audio = b; end = false } in
      let fits : length c.audio_channel < 100 = ground (arith, room) in
      let c1 : Client = record c { audio_channel = c.audio_channel ++ e ∷ [] } in
      let room1 : length c1.audio_channel + length bs ≤ 100 =
        ground (arith, room, length-append c.audio_channel (e ∷ [])) in
      let (events, audio_queued) = queued bs c1 room1 in
      let first : handle_voice_assistant_audio b false c ≡ c1 =
        ap (λ ch. record c { audio_channel = ch }) (try_send_room 100 e c.audio_channel fits) in
      let later = handle_messages (audio_messages bs) in
      (
        ap (λ c'. (later c').event_channel) first ∙ events,
        ap (λ c'. (later c').audio_channel) first
            ∙ audio_queued
            ∙ append_assoc c.audio_channel (e ∷ []) (sounds bs),
      )

  abbrev listening_event : VoiceAssistantEvent
  listening_event = record { phase = VoiceAssistantPhase.listening; error = [] }

  request_started :
      (c : Client)
      → c.event_channel ≡ []
      → c.sends ≡ []
      → handle_voice_assistant_request true c ≡ record c {
        sent = c.sent ++ assistant_response 0 false ∷ [];
        event_channel = listening_event ∷ [];
      }
  unfolding handle_voice_assistant_request send_message send_event try_send
  request_started c no_events works = rw (works, no_events) refl

  -- The start of the device and at most a hundred chunks, handled by a client with nothing in its
  -- channels and a connection on which the response can be written.
  device_events-started :
      (bs : List Bytes) (c : Client)
      → c.event_channel ≡ []
      → c.audio_channel ≡ []
      → c.sends ≡ []
      → length bs ≤ 100
      → device_events (handle_messages (voice_assistant_request true ∷ audio_messages bs) c)
        ≡ wake ∷ chunks_of bs
  unfolding handle_messages handle_message
  device_events-started bs c no_events no_audio works room =
      let c1 : Client = record c {
        sent = c.sent ++ assistant_response 0 false ∷ [];
        event_channel = listening_event ∷ [];
      } in
      let room1 : length c1.audio_channel + length bs ≤ 100 = rw no_audio (ground (arith, room)) in
      let (events, queue) = queued bs c1 room1 in
      let later = handle_messages (audio_messages bs) in
      ap (λ c'. device_events (later c')) (request_started c no_events works)
      ∙ ap (λ es. map voice_assistant es ++ map audio (later c1).audio_channel) events
      ∙ ap (λ q. wake ∷ map audio q) (queue ∙ ap (λ q. q ++ sounds bs) no_audio)
      ∙ ap (λ es. wake ∷ es) (chunks_of-sounds bs)

chunks_of-append :
    (bs : List Bytes) (last : Bytes) → chunks_of (bs ++ last ∷ []) ≡ chunks_of bs ++ chunk last ∷ []
chunks_of-append [] last = refl
chunks_of-append (b ∷ bs) last = ap (λ es. chunk b ∷ es) (chunks_of-append bs last)

module _ (F : Float) {V : Type 0} (r : Recognizer V) (services : Services (World F V))
    (has_history : Bool) (executor : ToolExecutor (World F V)) (fuel : ℕ)
    (base : Controller (World F V)) where
  open F use {Num}

  -- From the device's messages to the transcript: a client with nothing in its channels, that can send
  -- its response, handles the start and at most a hundred chunks; the controller, at rest over a network
  -- that works, takes the start and then the chunks, none of them empty, of which the last and no other
  -- ends the speech. It goes on with the transcript that the recognizer answers, and by then the
  -- recognizer was sent the opening, every chunk in order and the end of the audio, twice.
  pub run-device_events :
      (state_name : ℕ → Text) (c : Client) (b : Bytes) (bs : List Bytes) (last : Bytes)
      (cmds : List Command) (t : SttTranscriber Num) (next : ℕ) (log : List (ℕ × WireEvent))
      (v v' : V) (text : Text) (final : Bool)
      → c.event_channel ≡ []
      → c.audio_channel ≡ []
      → c.sends ≡ []
      → length ((b ∷ bs) ++ last ∷ []) ≤ 100
      → Continue F (b ∷ bs) (reset F t.vad_detector)
      → is_nil last ≡ false
      → (process_audio F last (listened F (b ∷ bs) (reset F t.vad_detector))).0.speech_ended ≡ true
      → r.answer v ≡ (v', transcript text final)
      → let heard = (b ∷ bs) ++ last ∷ [] in
        let c' =
          handle_messages state_name (voice_assistant_request true ∷ audio_messages heard) c in
        let d = (process_audio F last (listened F (b ∷ bs) (reset F t.vad_detector))).0 in
        let log' = log ++ session_events next t.language heard in
        run
          (config_with F r services has_history executor)
          fuel
          (device_events c')
          (at_rest F r services has_history executor fuel base cmds t next log v)
        ≡ then_run F r services has_history executor fuel base [] (
            after_transcript (config_with F r services has_history executor) fuel (some text) (
              hearing F r services has_history executor fuel base
                ((cmds ++ bare stt_start ∷ []) ++ bare vad_end ∷ [])
                (finished F t.language d (next + 1) log')
                v'))
  run-device_events state_name c b bs last cmds t next log v v' text final no_events no_audio works
        room more some_audio ended answered =
      let rest_state = at_rest F r services has_history executor fuel base cmds t next log v in
      ap (λ es. run (config_with F r services has_history executor) fuel es rest_state)
        (device_events-started state_name ((b ∷ bs) ++ last ∷ []) c no_events no_audio works room
          ∙ ap (λ es. wake ∷ es) (chunks_of-append (b ∷ bs) last))
      ∙ run-listening F r services has_history executor fuel base b bs last [] cmds t next log v v'
          text final more some_audio ended answered
