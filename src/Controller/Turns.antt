-- ===== src/Controller/Turns.antt =====
-- The controller's events as the turns of a conversation.
use ai_assistant_driver.Common.{
  ℕ, ◌≡◌, ◌⊎◌, refl, ◌∙◌, sym, inl, inr, Bool, true, false, ◌&&◌, Option, none, some, List, [], ◌∷◌,
  ◌++◌, append-nil, append_assoc, if◌then◌else◌, is_nil, Text,
}
use ai_assistant_driver.Phases.{returned, panicked, unfinished}
use ai_assistant_driver.Esphome.Command.{Command, bare, stt_start, vad_end}
use ai_assistant_driver.Esphome.Event.{AudioEvent, VoiceAssistantPhase}
use ai_assistant_driver.Controller.{
  Phase, idle, listening, thinking, reply, Config, Controller, send_error, send_command,
}
use ai_assistant_driver.Controller.Handlers.{
  Step, Event, voice_assistant, audio, media_player, handle, run, stop, handle_idle_or_error,
  handle_listening_end, handle_audio_event, handle_voice_assistant_event, handle_media_player_event,
  after_audio, dispatch, clean_up, phase_eq,
}
use ai_assistant_driver.Controller.Settled.{IsSettled, Ensures, phase_eq→eq, handle-IsSettled}
use ai_assistant_driver.Controller.Bursts.{Sends, Heard, listening_end-Sends}
use ai_assistant_driver.Controller.Conversation.{
  Turn, wake, keep, give_up, finish, stay, then_turns, IsTurn, IsTurns,
}
use ai_assistant_driver.Controller.Endings.{IsIdle, listening_end-IsIdle}

module _ {W : Type 0} (cfg : Config W) (fuel : ℕ) where
  -- The end of speech and what it led to are a turn.
  finish-IsTurn :
      (p : Phase) (before : List Command) (o : Step W)
      → p ≡ listening
      → Ensures IsIdle o
      → Sends Heard (before ++ bare vad_end ∷ []) o
      → IsTurn p before o
  finish-IsTurn p before (returned c) e i (b, h, sent) =
      (bare vad_end ∷ b, rw (e, i) (finish h), sent ∙ append_assoc before (bare vad_end ∷ []) b)
  finish-IsTurn p before panicked e i h = tt
  finish-IsTurn p before unfinished e i h = tt

  kept-IsTurn : (c : Controller W) → IsTurn c.phase c.commands (returned c)
  kept-IsTurn c = ([], keep c.phase, sym (append-nil c.commands))

  IsTurn-if :
      (p : Phase) (before : List Command) (b : Bool) (x y : Step W)
      → (b ≡ true → IsTurn p before x)
      → IsTurn p before y
      → IsTurn p before (if b then x else y)
  IsTurn-if p before true x y hx hy = hx refl
  IsTurn-if p before false x y hx hy = hy

  ended-IsTurn :
      (c : Controller W)
      → c.phase ≡ listening
      → IsTurn c.phase c.commands (handle_listening_end cfg fuel (send_command (bare vad_end) c))
  ended-IsTurn c p =
      let c' = send_command (bare vad_end) c in
      finish-IsTurn c.phase c.commands _ p (listening_end-IsIdle cfg fuel c' p)
        (listening_end-Sends cfg fuel c')

  sent_audio-IsTurn :
      (x : W × Option Text) (c : Controller W)
      → c.phase ≡ listening
      → IsTurn c.phase c.commands (after_audio cfg fuel x c)
  unfolding after_audio send_error
  sent_audio-IsTurn (w, some e) c p = ([], keep c.phase, sym (append-nil c.commands))
  sent_audio-IsTurn (w, none) c p =
      let (w', silence) = cfg.stt.silence_detected w in
      let c' = record c { world = w' } in
      IsTurn-if c.phase c.commands (silence && phase_eq c.phase listening) _ _
        (λ q. ended-IsTurn c' p) (kept-IsTurn c')

  audio-IsTurn :
      (e : AudioEvent) (c : Controller W)
      → IsTurn c.phase c.commands (handle_audio_event cfg fuel e c)
  unfolding handle_audio_event
  audio-IsTurn e c =
      IsTurn-if c.phase c.commands (phase_eq c.phase listening) _ _
        (λ l.
          IsTurn-if c.phase c.commands (is_nil e.audio) _ _ (λ n. kept-IsTurn c)
            (sent_audio-IsTurn _ c (phase_eq→eq _ _ l)))
        (kept-IsTurn c)

  -- What an idle or an error event does.
  idle_or_error-IsTurn :
      (p : Phase) (c : Controller W)
      → (p ≡ idle) ⊎ (p ≡ listening)
      → IsTurn p c.commands (returned (handle_idle_or_error cfg fuel (record c { phase = p })))
  unfolding handle_idle_or_error
  idle_or_error-IsTurn idle c h = kept-IsTurn (record c { phase = idle })
  idle_or_error-IsTurn listening c h = ([], give_up, sym (append-nil c.commands))
  idle_or_error-IsTurn thinking c (inl e) = cc
  idle_or_error-IsTurn thinking c (inr e) = cc
  idle_or_error-IsTurn reply c (inl e) = cc
  idle_or_error-IsTurn reply c (inr e) = cc

  woken-IsTurn :
      (p : Phase) (c : Controller W)
      → IsTurn p c.commands
          (returned (dispatch cfg fuel VoiceAssistantPhase.listening (record c { phase = p })))
  unfolding dispatch
  woken-IsTurn idle c = (bare stt_start ∷ [], wake, refl)
  woken-IsTurn p c = kept-IsTurn (record c { phase = p })

  voice-IsTurn :
      (v : VoiceAssistantPhase) (c : Controller W)
      → IsSettled c
      → IsTurn c.phase c.commands (returned (dispatch cfg fuel v c))
  unfolding dispatch
  voice-IsTurn VoiceAssistantPhase.listening c h = woken-IsTurn c.phase c
  voice-IsTurn VoiceAssistantPhase.idle c h = idle_or_error-IsTurn c.phase c h.between_phases
  voice-IsTurn VoiceAssistantPhase.error c h = idle_or_error-IsTurn c.phase c h.between_phases
  voice-IsTurn _ c h = kept-IsTurn c

  media-IsTurn :
      (b : Bool) (found : Option (W → W)) (c : Controller W)
      → found ≡ none
      → IsTurn c.phase c.commands (returned (clean_up cfg fuel b found c))
  unfolding clean_up
  media-IsTurn true none c e = kept-IsTurn c
  media-IsTurn true (some f) c e = cc
  media-IsTurn _ found c e = kept-IsTurn c

  handle-IsTurn :
      (e : Event) (c : Controller W) → IsSettled c → IsTurn c.phase c.commands (handle cfg fuel e c)
  unfolding handle handle_voice_assistant_event handle_media_player_event
  handle-IsTurn (voice_assistant e) c h = voice-IsTurn e.phase c h
  handle-IsTurn (audio e) c h = audio-IsTurn e c
  handle-IsTurn (media_player e) c h = media-IsTurn _ c.tts_cleanup c h.no_cleanup

  -- A turn before a run's turns.
  turn_first :
      (p q : Phase) (b before : List Command) (middle : List Command) (o : Step W)
      → Turn p b q
      → middle ≡ before ++ b
      → IsTurns q middle o
      → IsTurns p before o
  turn_first p q b before middle (returned c) t e (bs, ts, sent) =
      (b ++ bs, then_turns t ts, rw (sent, e) (append_assoc before b bs))
  turn_first p q b before middle panicked t e h = tt
  turn_first p q b before middle unfinished t e h = tt

  -- Whatever events arrive and whatever the services answer, a run from a controller between
  -- phases, if it does not panic or stay in the tool loop, is a sequence of turns of a conversation
  -- from its phase to the phase that it ends in, and the commands it adds are those of the turns.
  pub run-IsTurns :
      (events : List Event) (c : Controller W)
      → IsSettled c
      → IsTurns c.phase c.commands (run cfg fuel events c)
  unfolding run stop
  run-IsTurns [] c h = ([], stay c.phase, sym (append-nil c.commands))
  run-IsTurns (e ∷ rest) c h =
      go (handle cfg fuel e c) (handle-IsSettled cfg fuel e c h) (handle-IsTurn e c h)
        (run-IsTurns rest)
    where
      go :
          (o : Step W)
          → Ensures IsSettled o
          → IsTurn c.phase c.commands o
          → ((c' : Controller W)
              → IsSettled c'
              → IsTurns c'.phase c'.commands (run cfg fuel rest c'))
          → IsTurns c.phase c.commands (elim o [
            | returned c' ↦ run cfg fuel rest c'
            | panicked ↦ panicked
            | unfinished ↦ unfinished
          ])
      go (returned c') settled (b, t, sent) ih =
          turn_first c.phase c'.phase b c.commands c'.commands (run cfg fuel rest c') t sent
            (ih c' settled)
      go panicked settled t ih = tt
      go unfinished settled t ih = tt
