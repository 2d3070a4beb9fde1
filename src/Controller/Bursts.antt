-- ===== src/Controller/Bursts.antt =====
-- The commands that one event sends to the device.
use ai_assistant_driver.Common.{
  ℕ, ◌≡◌, refl, ◌∙◌, sym, Bool, true, false, ◌&&◌, Option, none, some, List, [], ◌∷◌, ◌++◌,
  append-nil, append_assoc, if◌then◌else◌, is_nil, Text, Bytes, Result, ok, err, arith,
}
use ai_assistant_driver.Phases.{Outcome, returned, panicked, unfinished}
use ai_assistant_driver.Phases.Reply
use ai_assistant_driver.Phases.Reply.{Replied, tts_start_command, tts_end_command}
use ai_assistant_driver.Esphome.Command.{
  Command, bare, stt_start, stt_end, vad_end, stt_end_payload,
}
use ai_assistant_driver.Esphome.Event.{AudioEvent, VoiceAssistantPhase}
use ai_assistant_driver.Controller.{
  Phase, idle, listening, thinking, reply, Config, Controller, send_error, send_command,
}
use ai_assistant_driver.Controller.Settled.{IsSettled}
use ai_assistant_driver.Controller.Handlers.{
  Step, Event, voice_assistant, audio, media_player, handle, handle_reply_start,
  handle_thinking_start, handle_listening_end, handle_audio_event, handle_voice_assistant_event,
  handle_media_player_event, after_reply, after_thinking, after_transcript, after_recv, after_audio,
  dispatch, clean_up, phase_eq,
}

abbrev stt_end_command : Text → Command
stt_end_command t = record { type = stt_end; payload = stt_end_payload t }

-- What the reply phase sends: the start, and an end with no URL.
pub data Spoken : List Command → Type 0 where
  speechless : Spoken []
  spoken : (r : Text) → Spoken (tts_start_command r ∷ tts_end_command r [] ∷ [])

-- What follows the end of speech: nothing if no transcript arrives, else the transcript, which may
-- be empty, and what the reply phase sends.
pub data Heard : List Command → Type 0 where
  unheard : Heard []
  heard : (t : Text) {b : List Command} → Spoken b → Heard (stt_end_command t ∷ b)

-- What one event can send.
data Burst : List Command → Type 0 where
  silent : Burst []
  begun : Burst (bare stt_start ∷ [])
  cut_off : {b : List Command} → Heard b → Burst (bare vad_end ∷ b)

-- The outcome, if it returns, has sent commands `b` more, with P b.
abbrev pub Sends : {W : Type 0} → (List Command → Type 0) → List Command → Step W → Type 0
Sends P before (returned c) = (b : List Command) × P b × (c.commands ≡ before ++ b)
Sends P before panicked = Unit
Sends P before unfinished = Unit

Sends-if :
    {W : Type 0} (P : List Command → Type 0) (before : List Command) (b : Bool) (x y : Step W)
    → Sends P before x
    → Sends P before y
    → Sends P before (if b then x else y)
Sends-if P before true x y hx hy = hx
Sends-if P before false x y hx hy = hy

-- A command sent first comes first.
Sends-after :
    {W : Type 0} (P Q : List Command → Type 0) (cmd : Command) (before : List Command) (x : Step W)
    → ((b : List Command) → P b → Q (cmd ∷ b))
    → Sends P (before ++ cmd ∷ []) x
    → Sends Q before x
Sends-after P Q cmd before (returned c) wider (b, p, e) =
    (cmd ∷ b, wider b p, e ∙ append_assoc before (cmd ∷ []) b)
Sends-after P Q cmd before panicked wider h = tt
Sends-after P Q cmd before unfinished wider h = tt

abbrev IsApology : {W : Type 0} → Outcome (Replied W) → Type 0
IsApology (returned r) = Spoken r.sent
IsApology panicked = Unit
IsApology unfinished = Unit

module _ {W : Type 0} (cfg : Config W) (fuel : ℕ) where
  saved_sends :
      (response : Text) (x : W × Result Text Text)
      → IsApology (Reply.after_save cfg.services none response x)
  unfolding Reply.after_save
  saved_sends response (w, err e) = spoken response
  saved_sends response (w, ok path) = tt

  synthesized_sends :
      (response : Text) (x : W × Result Text Bytes)
      → IsApology (Reply.after_synthesize cfg.services none response x)
  unfolding Reply.after_synthesize
  synthesized_sends response (w, err e) = spoken response
  synthesized_sends response (w, ok pcm) = saved_sends response (cfg.services.save_wav_file pcm w)

  reply_sends : (response : Text) (w : W) → IsApology (Reply.run cfg.services none response w)
  unfolding Reply.run
  reply_sends response w = synthesized_sends response (cfg.services.synthesize response w)

  replied-Sends :
      (o : Outcome (Replied W)) (c : Controller W)
      → IsApology o
      → Sends Spoken c.commands (after_reply cfg fuel o c)
  unfolding after_reply send_error
  replied-Sends panicked c a = tt
  replied-Sends unfinished c a = tt
  replied-Sends (returned r) c a = go r.result
    where
      go :
          (x : Result Text (W → W))
          → Sends Spoken c.commands (after_reply cfg fuel (returned (record r { result = x })) c)
      go (err e) = (r.sent, a, refl)
      go (ok f) = (r.sent, a, refl)

  reply_start-Sends : (c : Controller W) → Sends Spoken c.commands (handle_reply_start cfg fuel c)
  unfolding handle_reply_start
  reply_start-Sends c =
      Sends-if Spoken c.commands (phase_eq c.phase thinking) _ _
        (replied-Sends (Reply.run cfg.services none c.llm_response c.world)
          (record c { phase = reply }) (reply_sends c.llm_response c.world))
        ([], speechless, sym (append-nil c.commands))

  thought-Sends :
      (x : W × Option Text) (c : Controller W)
      → Sends Spoken c.commands (after_thinking cfg fuel x c)
  unfolding after_thinking send_error
  thought-Sends (w, none) c = tt
  thought-Sends (w, some []) c = ([], speechless, sym (append-nil c.commands))
  thought-Sends (w, some (x ∷ xs)) c = reply_start-Sends _

  thinking_start-Sends :
      (c : Controller W) → Sends Spoken c.commands (handle_thinking_start cfg fuel c)
  unfolding handle_thinking_start
  thinking_start-Sends c =
      Sends-if Spoken c.commands (phase_eq c.phase thinking) _ _
        ([], speechless, sym (append-nil c.commands))
        (thought-Sends _ (record c { phase = thinking }))

  transcript-Sends :
      (received : Option Text) (c : Controller W)
      → Sends Heard c.commands (after_transcript cfg fuel received c)
  unfolding after_transcript
  transcript-Sends none c = (stt_end_command [] ∷ [], heard [] speechless, refl)
  transcript-Sends (some []) c = (stt_end_command [] ∷ [], heard [] speechless, refl)
  transcript-Sends (some (x ∷ xs)) c =
      Sends-after Spoken Heard (stt_end_command (x ∷ xs)) c.commands _ (λ b s. heard (x ∷ xs) s)
        (thinking_start-Sends
          (send_command (stt_end_command (x ∷ xs)) (record c { transcript = x ∷ xs })))

  recv-Sends :
      (x : W × Result Text (Option Text)) (c : Controller W)
      → Sends Heard c.commands (after_recv cfg fuel x c)
  unfolding after_recv send_error
  recv-Sends (w, err e) c = ([], unheard, sym (append-nil c.commands))
  recv-Sends (w, ok received) c =
      transcript-Sends received (record c { world = (cfg.stt.close w).0 })

  pub listening_end-Sends :
      (c : Controller W) → Sends Heard c.commands (handle_listening_end cfg fuel c)
  unfolding handle_listening_end
  listening_end-Sends c =
      Sends-if Heard c.commands (phase_eq c.phase listening) _ _ (recv-Sends _ c)
        ([], unheard, sym (append-nil c.commands))

  sent_audio-Sends :
      (x : W × Option Text) (c : Controller W) → Sends Burst c.commands (after_audio cfg fuel x c)
  unfolding after_audio send_error
  sent_audio-Sends (w, some e) c = ([], silent, sym (append-nil c.commands))
  sent_audio-Sends (w, none) c =
      let (w', silence) = cfg.stt.silence_detected w in
      let c' = record c { world = w' } in
      Sends-if Burst c.commands (silence && phase_eq c.phase listening) _ _
        (Sends-after Heard Burst (bare vad_end) c.commands _ (λ b h. cut_off h)
          (listening_end-Sends (send_command (bare vad_end) c')))
        ([], silent, sym (append-nil c.commands))

  audio-Sends :
      (e : AudioEvent) (c : Controller W) → Sends Burst c.commands (handle_audio_event cfg fuel e c)
  unfolding handle_audio_event
  audio-Sends e c =
      let nothing : Sends Burst c.commands (returned c) =
        ([], silent, sym (append-nil c.commands)) in
      Sends-if Burst c.commands (phase_eq c.phase listening) _ _
        (Sends-if Burst c.commands (is_nil e.audio) _ _ nothing (sent_audio-Sends _ c)) nothing

  voice-Sends :
      (p : VoiceAssistantPhase) (c : Controller W)
      → Sends Burst c.commands (returned (dispatch cfg fuel p c))
  unfolding dispatch
  voice-Sends VoiceAssistantPhase.listening c = go c.phase
    where
      go :
          (p : Phase)
          → Sends Burst c.commands
              (returned (dispatch cfg fuel VoiceAssistantPhase.listening (record c { phase = p })))
      go idle = (bare stt_start ∷ [], begun, refl)
      go _ = ([], silent, sym (append-nil c.commands))
  voice-Sends VoiceAssistantPhase.idle c = ([], silent, ground (arith, append-nil c.commands))
  voice-Sends VoiceAssistantPhase.error c = ([], silent, ground (arith, append-nil c.commands))
  voice-Sends _ c = ([], silent, sym (append-nil c.commands))

  media-Sends :
      (b : Bool) (found : Option (W → W)) (c : Controller W)
      → found ≡ none
      → Sends Burst c.commands (returned (clean_up cfg fuel b found c))
  unfolding clean_up
  media-Sends true none c e = ([], silent, sym (append-nil c.commands))
  media-Sends true (some f) c e = cc
  media-Sends _ found c e = ([], silent, sym (append-nil c.commands))

  -- An event that is handled between phases sends one of: nothing; the start of speech recognition;
  -- the end of speech alone, or followed by the transcript, or by the transcript and an answer that
  -- starts and ends with no audio URL. It never sends the end of the voice assistant's run.
  handle-Sends :
      (e : Event) (c : Controller W) → IsSettled c → Sends Burst c.commands (handle cfg fuel e c)
  unfolding handle handle_voice_assistant_event handle_media_player_event
  handle-Sends (voice_assistant e) c h = voice-Sends e.phase c
  handle-Sends (audio e) c h = audio-Sends e c
  handle-Sends (media_player e) c h = media-Sends _ c.tts_cleanup c h.no_cleanup
