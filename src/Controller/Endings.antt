-- ===== src/Controller/Endings.antt =====
-- The end of listening leads back to the idle phase, whatever comes of the answer.
use ai_assistant_driver.Common.{
  ℕ, ◌≡◌, refl, Option, none, some, [], ◌∷◌, Text, Result, ok, err, ap,
}
use ai_assistant_driver.Phases.{Outcome, returned, panicked, unfinished}
use ai_assistant_driver.Phases.Reply.{Replied}
use ai_assistant_driver.Controller.{idle, listening, thinking, Config, Controller, send_error}
use ai_assistant_driver.Controller.Handlers.{
  handle_reply_start, handle_thinking_start, handle_listening_end, after_reply, after_thinking,
  after_transcript, after_recv, phase_eq,
}
use ai_assistant_driver.Controller.Settled.{Ensures}

abbrev pub IsIdle : {W : Type 0} → Controller W → Type 0
IsIdle c = c.phase ≡ idle

module _ {W : Type 0} (cfg : Config W) (fuel : ℕ) where
  replied-IsIdle :
      (o : Outcome (Replied W)) (c : Controller W) → Ensures IsIdle (after_reply cfg fuel o c)
  unfolding after_reply
  replied-IsIdle panicked c = tt
  replied-IsIdle unfinished c = tt
  replied-IsIdle (returned r) c = go r.result
    where
      go :
          (x : Result Text (W → W))
          → Ensures IsIdle (after_reply cfg fuel (returned (record r { result = x })) c)
      go (err e) = refl
      go (ok f) = refl

  reply_start-IsIdle :
      (c : Controller W) → c.phase ≡ thinking → Ensures IsIdle (handle_reply_start cfg fuel c)
  unfolding handle_reply_start
  reply_start-IsIdle c p = rw p (replied-IsIdle _ _)

  thought-IsIdle :
      (x : W × Option Text) (c : Controller W)
      → c.phase ≡ thinking
      → Ensures IsIdle (after_thinking cfg fuel x c)
  unfolding after_thinking send_error
  thought-IsIdle (w, none) c p = tt
  thought-IsIdle (w, some []) c p = refl
  thought-IsIdle (w, some (x ∷ xs)) c p = reply_start-IsIdle _ p

  thinking_start-IsIdle :
      (c : Controller W) → c.phase ≡ listening → Ensures IsIdle (handle_thinking_start cfg fuel c)
  unfolding handle_thinking_start
  thinking_start-IsIdle c p = rw p (thought-IsIdle _ _ refl)

  heard-IsIdle :
      (received : Option Text) (c : Controller W)
      → c.phase ≡ listening
      → Ensures IsIdle (after_transcript cfg fuel received c)
  unfolding after_transcript
  heard-IsIdle none c p = refl
  heard-IsIdle (some []) c p = refl
  heard-IsIdle (some (x ∷ xs)) c p = thinking_start-IsIdle _ p

  received-IsIdle :
      (x : W × Result Text (Option Text)) (c : Controller W)
      → c.phase ≡ listening
      → Ensures IsIdle (after_recv cfg fuel x c)
  unfolding after_recv send_error
  received-IsIdle (w, err e) c p = refl
  received-IsIdle (w, ok received) c p =
      heard-IsIdle received (record c { world = (cfg.stt.close w).0 }) p

  pub listening_end-IsIdle :
      (c : Controller W) → c.phase ≡ listening → Ensures IsIdle (handle_listening_end cfg fuel c)
  unfolding handle_listening_end
  listening_end-IsIdle c p = rw (ap (λ q. phase_eq q listening) p) (received-IsIdle _ c p)
