-- ===== src/Controller/Tests.antt =====
-- A conversation of the controller, and its theorems at concrete inputs.
-- The world counts the calls of the services.
use ai_assistant_driver.Common.{ℕ, ◌≡◌, refl, inl, inr, true, false, [], ◌∷◌, codes, arith}
use ai_assistant_driver.Phases.{panicked}
use ai_assistant_driver.Phases.Thinking
use ai_assistant_driver.Phases.Reply
use ai_assistant_driver.Esphome.Event.{VoiceAssistantPhase}
use ai_assistant_driver.Controller.{thinking, Controller, new_controller}
use ai_assistant_driver.Controller.Handlers.{
  Event, voice_assistant, audio, handle, run, handle_reply_start, handle_voice_assistant_event,
  handle_audio_event,
}
use ai_assistant_driver.Controller.Fixtures.{config, awake}
use ai_assistant_driver.Controller.Settled.{IsSettled, Ensures, run-IsSettled}
use ai_assistant_driver.Controller.Conversation.{IsTurns}
use ai_assistant_driver.Controller.Turns.{run-IsTurns}
use ai_assistant_driver.Controller.Speaking.{Ends, handle_reply_start-Ends}

abbrev wake : Event
wake = voice_assistant (record { phase = VoiceAssistantPhase.listening; error = [] })

abbrev speech : Event
speech = audio (record { audio = 5 ∷ 6 ∷ []; end = false })

abbrev answering : Controller ℕ
answering = record awake { phase = thinking; llm_response = codes "done" }

-- With a working voice the first answer ends the process.
first_answer_panics : run (config true) 3 (wake ∷ speech ∷ []) (new_controller 0) ≡ panicked
unfolding run handle new_controller handle_voice_assistant_event handle_audio_event Thinking.run
    Reply.run
first_answer_panics = refl

run-IsSettled_example :
    Ensures IsSettled (run (config false) 3 (wake ∷ speech ∷ []) (new_controller 0))
unfolding new_controller
run-IsSettled_example =
    run-IsSettled (config false) 3 (wake ∷ speech ∷ []) (new_controller 0)
      (record { between_phases = inl refl; no_cleanup = refl; errors_bounded = omega arith })

handle_reply_start-Ends_example :
    Ends (config true) 3 answering (handle_reply_start (config true) 3 answering)
handle_reply_start-Ends_example = handle_reply_start-Ends (config true) 3 answering refl

run-IsTurns_example :
    IsTurns awake.phase awake.commands (run (config false) 3 (speech ∷ wake ∷ []) awake)
run-IsTurns_example =
    run-IsTurns (config false) 3 (speech ∷ wake ∷ []) awake
      (record { between_phases = inr refl; no_cleanup = refl; errors_bounded = omega arith })
