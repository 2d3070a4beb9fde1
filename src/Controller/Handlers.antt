-- ===== src/Controller/Handlers.antt =====
-- internal/controller/phases.go and controller.go: the handlers. Each returns the new controller, or
-- tells that it panicked or that the model's fuel for the tool loop was used up.
use ai_assistant_driver.Common.{
  ℕ, Bool, true, false, ◌&&◌, Option, none, some, List, [], ◌∷◌, ◌++◌, if◌then◌else◌, is_nil, Text,
  codes, text_eq, Result, ok, err,
}
use ai_assistant_driver.Phases.{Outcome, returned, panicked, unfinished}
use ai_assistant_driver.Phases.Thinking
use ai_assistant_driver.Phases.Reply
use ai_assistant_driver.Phases.Reply.{Replied}
use ai_assistant_driver.Esphome.Command.{bare, stt_start, stt_end, vad_end, stt_end_payload}
use ai_assistant_driver.Esphome.Command.{voice_assistant_end}
use ai_assistant_driver.Esphome.Event.{
  VoiceAssistantPhase, VoiceAssistantEvent, AudioEvent, MediaPlayerEvent,
}
use ai_assistant_driver.Controller.{
  Phase, idle, listening, thinking, reply, Config, Controller, send_error, send_command,
}

abbrev pub phase_eq : Phase → Phase → Bool
phase_eq idle idle = true
phase_eq listening listening = true
phase_eq thinking thinking = true
phase_eq reply reply = true
phase_eq _ _ = false

abbrev pub Step : Type 0 → Type 0
Step W = Outcome (Controller W)

abbrev media_player_idle : Text
media_player_idle = codes "MEDIA_PLAYER_STATE_IDLE"

module _ {W : Type 0} (cfg : Config W) (fuel : ℕ) where
  abbrev back_to_idle : Controller W → Controller W
  back_to_idle c = record c { phase = idle; transcript = []; llm_response = [] }

  -- `NewReplyPhase` is handed `nil` for the server.
  unfoldable pub after_reply : Outcome (Replied W) → Controller W → Step W
  after_reply panicked c = panicked
  after_reply unfinished c = unfinished
  after_reply (returned r) c =
      let c' = record c { commands = c.commands ++ r.sent; world = r.world } in
      elim r.result [
        | err e ↦ returned (
            back_to_idle
              (send_error (record { phase = reply; message = e; recoverable = false }) c'))
        | ok cleanup ↦ returned (back_to_idle (record c' { tts_cleanup = some cleanup }))
      ]

  unfoldable pub handle_reply_start : Controller W → Step W
  unfolding after_reply
  handle_reply_start c =
      if phase_eq c.phase thinking
      then (let c' = record c { phase = reply } in
          after_reply (Reply.run cfg.services none c'.llm_response c'.world) c')
      else returned c

  -- From the response on; the phase is thinking here.
  unfoldable pub after_thinking : W × Option Text → Controller W → Step W
  unfolding handle_reply_start
  after_thinking (w, none) c = unfinished
  after_thinking (w, some []) c =
      returned
        (record (send_error
          (record { phase = thinking; message = codes "no response from LLM"; recoverable = false })
          (record c { world = w })) { phase = idle })
  after_thinking (w, some (b ∷ response)) c =
      let w' =
        if cfg.has_history then cfg.services.add_message c.transcript (b ∷ response) w else w in
      handle_reply_start (record c { llm_response = b ∷ response; world = w' })

  unfoldable pub handle_thinking_start : Controller W → Step W
  unfolding after_thinking
  handle_thinking_start c =
      if phase_eq c.phase thinking
      then returned c
      else (let c' = record c { phase = thinking } in
          after_thinking
            (Thinking.run cfg.services cfg.executor fuel cfg.has_history c'.transcript c'.world) c')

  -- From the transcript on: `if transcript != nil && transcript.Text != ""`.
  unfoldable pub after_transcript : Option Text → Controller W → Step W
  unfolding handle_thinking_start
  after_transcript received c =
      let text : Text = elim received [ none ↦ [] | some t ↦ t ] in
      let c' =
        send_command (record { type = stt_end; payload = stt_end_payload text })
          (record c { transcript = text }) in
      if is_nil text then returned (record c' { phase = idle }) else handle_thinking_start c'

  unfoldable pub after_recv : W × Result Text (Option Text) → Controller W → Step W
  unfolding after_transcript
  after_recv (w, err e) c = returned (
      send_error (record { phase = listening; message = e; recoverable = true })
        (record c { world = (cfg.stt.close w).0; phase = idle }))
  after_recv (w, ok received) c =
      after_transcript received (record c { world = (cfg.stt.close w).0 })

  unfoldable pub handle_listening_end : Controller W → Step W
  unfolding after_recv
  handle_listening_end c =
      if phase_eq c.phase listening
      then after_recv (cfg.stt.recv (cfg.stt.send_audio_stop c.world).0) c
      else returned c

  unfoldable pub after_audio : W × Option Text → Controller W → Step W
  unfolding handle_listening_end
  after_audio (w, some e) c = returned (
      send_error (record { phase = listening; message = e; recoverable = true })
        (record c { world = w }))
  after_audio (w, none) c =
      let (w', silence) = cfg.stt.silence_detected w in
      let c' = record c { world = w' } in
      if silence && phase_eq c.phase listening
      then handle_listening_end (send_command (bare vad_end) c')
      else returned c'

  unfoldable pub handle_audio_event : AudioEvent → Controller W → Step W
  unfolding after_audio
  handle_audio_event event c =
      if phase_eq c.phase listening
      then (if is_nil event.audio
          then returned c
          else after_audio (cfg.stt.send_audio event.audio c.world) c)
      else returned c

  unfoldable pub handle_listening_start : Controller W → Controller W
  handle_listening_start c =
      if phase_eq c.phase idle
      then send_command (bare stt_start)
          (record c { world = cfg.stt.reset_vad (cfg.stt.reset c.world); phase = listening })
      else c

  unfoldable pub handle_idle_or_error : Controller W → Controller W
  handle_idle_or_error c = if phase_eq c.phase idle then c else back_to_idle c

  unfoldable pub dispatch : VoiceAssistantPhase → Controller W → Controller W
  unfolding handle_listening_start handle_idle_or_error
  dispatch VoiceAssistantPhase.listening c =
      if phase_eq c.phase idle then handle_listening_start c else c
  dispatch VoiceAssistantPhase.idle c = handle_idle_or_error c
  dispatch VoiceAssistantPhase.error c = handle_idle_or_error c
  dispatch _ c = c

  unfoldable pub handle_voice_assistant_event : VoiceAssistantEvent → Controller W → Step W
  unfolding dispatch
  handle_voice_assistant_event event c = returned (dispatch event.phase c)

  unfoldable pub clean_up : Bool → Option (W → W) → Controller W → Controller W
  clean_up true (some cleanup) c =
      send_command (bare voice_assistant_end)
        (record c { world = cleanup c.world; tts_cleanup = none })
  clean_up _ _ c = c

  unfoldable pub handle_media_player_event : MediaPlayerEvent → Controller W → Step W
  unfolding clean_up
  handle_media_player_event event c =
      returned (clean_up (text_eq event.state media_player_idle) c.tts_cleanup c)

-- What the select of `Run` can receive.
pub data Event : Type 0 where
  voice_assistant : VoiceAssistantEvent → Event
  audio : AudioEvent → Event
  media_player : MediaPlayerEvent → Event

module _ {W : Type 0} (cfg : Config W) (fuel : ℕ) where
  unfoldable pub handle : Event → Controller W → Step W
  handle (voice_assistant e) c = handle_voice_assistant_event cfg fuel e c
  handle (audio e) c = handle_audio_event cfg fuel e c
  handle (media_player e) c = handle_media_player_event cfg fuel e c

  -- The branch of `ctx.Done()`.
  unfoldable pub stop : Controller W → Controller W
  stop c = record c { world = elim c.tts_cleanup [ none ↦ c.world | some f ↦ f c.world ] }

  -- Run on the events that arrive until the context is cancelled.
  unfoldable pub run : List Event → Controller W → Step W
  unfolding stop
  run [] c = returned (stop c)
  run (e ∷ rest) c = elim (handle e c) [
    | returned c' ↦ run rest c'
    | panicked ↦ panicked
    | unfinished ↦ unfinished
  ]
