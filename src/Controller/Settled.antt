-- ===== src/Controller/Settled.antt =====
-- What holds of the controller between two events.
use ai_assistant_driver.Common.{
  ℕ, ◌≤◌, ◌≡◌, refl, ◌⊎◌, inl, Bool, true, false, Option, none, some, List, [], ◌∷◌, length,
  if◌then◌else◌, is_nil, ◌&&◌, Text, Bytes, Result, ok, err, arith,
}
use ai_assistant_driver.Common.Channel.{length-try_send}
use ai_assistant_driver.Phases.{Outcome, returned, panicked, unfinished}
use ai_assistant_driver.Phases.Reply
use ai_assistant_driver.Phases.Reply.{Replied}
use ai_assistant_driver.Esphome.Command.{bare, vad_end}
use ai_assistant_driver.Esphome.Event.{AudioEvent, VoiceAssistantPhase}
use ai_assistant_driver.Controller.{
  Phase, idle, listening, thinking, Config, Controller, send_error, send_command,
}
use ai_assistant_driver.Controller.Handlers.{
  Step, Event, voice_assistant, audio, media_player, handle, run, stop, handle_reply_start,
  handle_thinking_start, handle_listening_end, handle_audio_event, handle_voice_assistant_event,
  handle_media_player_event, after_reply, after_thinking, after_transcript, after_recv, after_audio,
  dispatch, clean_up, phase_eq,
}

pub record IsSettled {W : Type 0} (c : Controller W) : Type 0 where
  pub between_phases : (c.phase ≡ idle) ⊎ (c.phase ≡ listening)
  pub no_cleanup : c.tts_cleanup ≡ none
  pub errors_bounded : length c.errors ≤ 10

-- What a handler promises of the controller that it returns.
abbrev pub Ensures : {W : Type 0} → (Controller W → Type 0) → Step W → Type 0
Ensures P (returned c) = P c
Ensures P panicked = Unit
Ensures P unfinished = Unit

abbrev IsFailure : {W : Type 0} → Outcome (Replied W) → Type 0
IsFailure (returned r) = (e : Text) × (r.result ≡ err e)
IsFailure panicked = Unit
IsFailure unfinished = Unit

pub phase_eq→eq : (p q : Phase) → phase_eq p q ≡ true → p ≡ q
phase_eq→eq p q h = ground arith

Ensures-if :
    {W : Type 0} (P : Controller W → Type 0) (b : Bool) (x y : Step W)
    → (b ≡ true → Ensures P x)
    → Ensures P y
    → Ensures P (if b then x else y)
Ensures-if P true x y hx hy = hx refl
Ensures-if P false x y hx hy = hy

module _ {W : Type 0} (cfg : Config W) (fuel : ℕ) where
  saved_fails :
      (response : Text) (x : W × Result Text Text)
      → IsFailure (Reply.after_save cfg.services none response x)
  unfolding Reply.after_save
  saved_fails response (w, err e) = (e, refl)
  saved_fails response (w, ok path) = tt

  synthesized_fails :
      (response : Text) (x : W × Result Text Bytes)
      → IsFailure (Reply.after_synthesize cfg.services none response x)
  unfolding Reply.after_synthesize
  synthesized_fails response (w, err e) = (e, refl)
  synthesized_fails response (w, ok pcm) = saved_fails response (cfg.services.save_wav_file pcm w)

  -- With no server a run of the reply phase never gives a cleanup function.
  reply_fails : (response : Text) (w : W) → IsFailure (Reply.run cfg.services none response w)
  unfolding Reply.run
  reply_fails response w = synthesized_fails response (cfg.services.synthesize response w)

  replied-IsSettled :
      (o : Outcome (Replied W)) (c : Controller W)
      → IsFailure o
      → c.tts_cleanup ≡ none
      → length c.errors ≤ 10
      → Ensures IsSettled (after_reply cfg fuel o c)
  unfolding after_reply send_error
  replied-IsSettled panicked c f n b = tt
  replied-IsSettled unfinished c f n b = tt
  replied-IsSettled (returned r) c (e, failed) n b = rw failed record {
    between_phases = inl refl;
    no_cleanup = n;
    errors_bounded = length-try_send 10 _ c.errors b;
  }

  reply_start-IsSettled :
      (c : Controller W)
      → c.phase ≡ thinking
      → c.tts_cleanup ≡ none
      → length c.errors ≤ 10
      → Ensures IsSettled (handle_reply_start cfg fuel c)
  unfolding handle_reply_start
  reply_start-IsSettled c p n b =
      rw p (replied-IsSettled _ _ (reply_fails c.llm_response c.world) n b)

  thought-IsSettled :
      (x : W × Option Text) (c : Controller W)
      → c.phase ≡ thinking
      → c.tts_cleanup ≡ none
      → length c.errors ≤ 10
      → Ensures IsSettled (after_thinking cfg fuel x c)
  unfolding after_thinking send_error
  thought-IsSettled (w, none) c p n b = tt
  thought-IsSettled (w, some []) c p n b = record {
    between_phases = inl refl;
    no_cleanup = n;
    errors_bounded = length-try_send 10 _ c.errors b;
  }
  thought-IsSettled (w, some (x ∷ xs)) c p n b = reply_start-IsSettled _ p n b

  thinking_start-IsSettled :
      (c : Controller W)
      → c.phase ≡ listening
      → c.tts_cleanup ≡ none
      → length c.errors ≤ 10
      → Ensures IsSettled (handle_thinking_start cfg fuel c)
  unfolding handle_thinking_start
  thinking_start-IsSettled c p n b = rw p (thought-IsSettled _ _ refl n b)

  heard-IsSettled :
      (received : Option Text) (c : Controller W)
      → c.phase ≡ listening
      → c.tts_cleanup ≡ none
      → length c.errors ≤ 10
      → Ensures IsSettled (after_transcript cfg fuel received c)
  unfolding after_transcript
  heard-IsSettled none c p n b = record {
    between_phases = inl refl;
    no_cleanup = n;
    errors_bounded = b;
  }
  heard-IsSettled (some []) c p n b = record {
    between_phases = inl refl;
    no_cleanup = n;
    errors_bounded = b;
  }
  heard-IsSettled (some (x ∷ xs)) c p n b = thinking_start-IsSettled _ p n b

  received-IsSettled :
      (x : W × Result Text (Option Text)) (c : Controller W)
      → c.phase ≡ listening
      → c.tts_cleanup ≡ none
      → length c.errors ≤ 10
      → Ensures IsSettled (after_recv cfg fuel x c)
  unfolding after_recv send_error
  received-IsSettled (w, err e) c p n b = record {
    between_phases = inl refl;
    no_cleanup = n;
    errors_bounded = length-try_send 10 _ c.errors b;
  }
  received-IsSettled (w, ok received) c p n b =
      heard-IsSettled received (record c { world = (cfg.stt.close w).0 }) p n b

  listening_end-IsSettled :
      (c : Controller W) → IsSettled c → Ensures IsSettled (handle_listening_end cfg fuel c)
  unfolding handle_listening_end
  listening_end-IsSettled c h =
      Ensures-if IsSettled (phase_eq c.phase listening) _ _
        (λ e. received-IsSettled _ c (phase_eq→eq _ _ e) h.no_cleanup h.errors_bounded) h

  sent_audio-IsSettled :
      (x : W × Option Text) (c : Controller W)
      → IsSettled c
      → Ensures IsSettled (after_audio cfg fuel x c)
  unfolding after_audio send_error
  sent_audio-IsSettled (w, some e) c h = record {
    between_phases = h.between_phases;
    no_cleanup = h.no_cleanup;
    errors_bounded = length-try_send 10 _ c.errors h.errors_bounded;
  }
  sent_audio-IsSettled (w, none) c h =
      let (w', silence) = cfg.stt.silence_detected w in
      let c' = record c { world = w' } in
      let h' : IsSettled c' = record {
        between_phases = h.between_phases;
        no_cleanup = h.no_cleanup;
        errors_bounded = h.errors_bounded;
      } in
      Ensures-if IsSettled (silence && phase_eq c.phase listening) _ _
        (λ e. listening_end-IsSettled (send_command (bare vad_end) c') (record {
          between_phases = h.between_phases;
          no_cleanup = h.no_cleanup;
          errors_bounded = h.errors_bounded;
        }))
        h'

  audio-IsSettled :
      (e : AudioEvent) (c : Controller W)
      → IsSettled c
      → Ensures IsSettled (handle_audio_event cfg fuel e c)
  unfolding handle_audio_event
  audio-IsSettled e c h =
      Ensures-if IsSettled (phase_eq c.phase listening) _ _
        (λ l. Ensures-if IsSettled (is_nil e.audio) _ _ (λ n. h) (sent_audio-IsSettled _ c h)) h

  voice-IsSettled :
      (p : VoiceAssistantPhase) (c : Controller W) → IsSettled c → IsSettled (dispatch cfg fuel p c)
  unfolding dispatch
  voice-IsSettled VoiceAssistantPhase.idle c h = ground arith
  voice-IsSettled _ c h = ground arith

  media-IsSettled :
      (b : Bool) (found : Option (W → W)) (c : Controller W)
      → found ≡ none
      → IsSettled c
      → IsSettled (clean_up cfg fuel b found c)
  unfolding clean_up
  media-IsSettled true none c e h = h
  media-IsSettled true (some f) c e h = cc
  media-IsSettled _ found c e h = h

  pub handle-IsSettled :
      (e : Event) (c : Controller W) → IsSettled c → Ensures IsSettled (handle cfg fuel e c)
  unfolding handle handle_voice_assistant_event handle_media_player_event
  handle-IsSettled (voice_assistant e) c h = voice-IsSettled e.phase c h
  handle-IsSettled (audio e) c h = audio-IsSettled e c h
  handle-IsSettled (media_player e) c h = media-IsSettled _ c.tts_cleanup c h.no_cleanup h

  -- Whatever events arrive and whatever the services answer, a run from a controller between
  -- phases, if it does not panic in the reply phase or stay in the tool loop, returns one between
  -- phases: idle or listening, with no cleanup function, and at most ten errors waiting.
  pub run-IsSettled :
      (events : List Event) (c : Controller W)
      → IsSettled c
      → Ensures IsSettled (run cfg fuel events c)
  unfolding run stop
  run-IsSettled [] c h = record {
    between_phases = h.between_phases;
    no_cleanup = h.no_cleanup;
    errors_bounded = h.errors_bounded;
  }
  run-IsSettled (e ∷ rest) c h =
      go (handle cfg fuel e c) (handle-IsSettled e c h) (run-IsSettled rest)
    where
      go :
          (o : Step W)
          → Ensures IsSettled o
          → ((c' : Controller W) → IsSettled c' → Ensures IsSettled (run cfg fuel rest c'))
          → Ensures IsSettled (elim o [
            | returned c' ↦ run cfg fuel rest c'
            | panicked ↦ panicked
            | unfinished ↦ unfinished
          ])
      go (returned c') settled ih = ih c' settled
      go panicked settled ih = tt
      go unfinished settled ih = tt
