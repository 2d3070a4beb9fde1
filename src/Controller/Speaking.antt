-- ===== src/Controller/Speaking.antt =====
-- How the reply phase ends. The controller hands it no server, so an answer that has been spoken and
-- saved ends in a panic.
use mathlib.Core.Path.{subst}
use ai_assistant_driver.Common.{
  ℕ, ◌≡◌, refl, sym, ◌⊎◌, inl, inr, none, [], ◌∷◌, ◌++◌, Text, Bytes, Result, ok, err,
  if◌then◌else◌, false,
}
use ai_assistant_driver.Common.Channel.{try_send}
use ai_assistant_driver.Phases.{returned, panicked}
use ai_assistant_driver.Phases.Reply
use ai_assistant_driver.Phases.Reply.{Replied, tts_start_command, tts_end_command}
use ai_assistant_driver.Controller.{
  idle, thinking, reply, Config, Controller, send_error, errors_capacity,
}
use ai_assistant_driver.Controller.Handlers.{Step, handle_reply_start, after_reply, phase_eq}

module _ {W : Type 0} (cfg : Config W) (fuel : ℕ) where
  open cfg use {services}

  -- The answer was synthesized and its WAV file saved.
  abbrev IsSpoken : Controller W → Type 0
  IsSpoken c =
      let (w, synthesized) = services.synthesize c.llm_response c.world in
      (pcm : Bytes) × (path : Text) × (synthesized ≡ ok pcm)
      × ((services.save_wav_file pcm w).1 ≡ ok path)

  -- The controller went back to idle, cleared, with the reply's failure on the error channel.
  pub record IsGivenUp (c c' : Controller W) : Type 0 where
    pub failure : Text
    pub now_idle : c'.phase ≡ idle
    pub cleared : (c'.transcript ≡ []) × (c'.llm_response ≡ [])
    pub reported :
        c'.errors
        ≡ try_send errors_capacity
            (record { phase = reply; message = failure; recoverable = false })
            c.errors
    pub answered :
        c'.commands
        ≡ c.commands ++ tts_start_command c.llm_response ∷ tts_end_command c.llm_response [] ∷ []

  abbrev pub Ends : Controller W → Step W → Type 0
  Ends c o =
      (IsSpoken c × (o ≡ panicked)) ⊎ ((c' : Controller W) × (o ≡ returned c') × IsGivenUp c c')

  saved-Ends :
      (c : Controller W) (pcm : Bytes)
      → (services.synthesize c.llm_response c.world).1 ≡ ok pcm
      → (x : W × Result Text Text)
      → services.save_wav_file pcm (services.synthesize c.llm_response c.world).0 ≡ x
      → Ends c (
          after_reply cfg fuel
            (Reply.after_save services none c.llm_response x)
            (record c { phase = reply }))
  unfolding Reply.after_save after_reply send_error
  saved-Ends c pcm spoken (w, err e) saved = inr (
    _,
    refl,
    record {
      failure = e;
      now_idle = refl;
      cleared = (refl, refl);
      reported = refl;
      answered = refl;
    },
  )
  saved-Ends c pcm spoken (w, ok path) saved = inl ((pcm, path, spoken, rw saved), refl)

  synthesized-Ends :
      (c : Controller W) (x : W × Result Text Bytes)
      → services.synthesize c.llm_response c.world ≡ x
      → Ends c (
          after_reply cfg fuel
            (Reply.after_synthesize services none c.llm_response x)
            (record c { phase = reply }))
  unfolding Reply.after_synthesize after_reply send_error
  synthesized-Ends c (w, err e) spoken = inr (
    _,
    refl,
    record {
      failure = e;
      now_idle = refl;
      cleared = (refl, refl);
      reported = refl;
      answered = refl;
    },
  )
  synthesized-Ends c (w, ok pcm) spoken =
      saved-Ends c pcm (rw spoken) (services.save_wav_file pcm w) (rw spoken)

  -- From the thinking phase the reply either panics, and then the answer was synthesized and saved,
  -- or it failed: the controller is idle and cleared, the failure waits on the error channel unless
  -- that is full, and the device was sent a start and an end without URL.
  pub handle_reply_start-Ends :
      (c : Controller W) → c.phase ≡ thinking → Ends c (handle_reply_start cfg fuel c)
  unfolding handle_reply_start Reply.run
  handle_reply_start-Ends c p =
      let spoken =
        after_reply cfg fuel (Reply.run services none c.llm_response c.world)
          (record c { phase = reply }) in
      subst (λ q. Ends c (if phase_eq q thinking then spoken else returned c)) (sym p)
        (synthesized-Ends c (services.synthesize c.llm_response c.world) refl)
