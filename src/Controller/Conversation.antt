-- ===== src/Controller/Conversation.antt =====
-- What a conversation promises: the phases it goes through and the commands that the device is sent.
use ai_assistant_driver.Common.{◌≡◌, List, [], ◌∷◌, ◌++◌}
use ai_assistant_driver.Phases.{returned, panicked, unfinished}
use ai_assistant_driver.Esphome.Command.{Command, bare, stt_start, vad_end}
use ai_assistant_driver.Controller.{Phase, idle, listening}
use ai_assistant_driver.Controller.Handlers.{Step}
use ai_assistant_driver.Controller.Bursts.{Heard}

-- The conversation between two phases, with the commands that the device is sent: it is woken, it is
-- left as it is, it is given up, or the speech ends and is answered as far as possible.
pub data Turn : Phase → List Command → Phase → Type 0 where
  wake : Turn idle (bare stt_start ∷ []) listening
  keep : (p : Phase) → Turn p [] p
  give_up : Turn listening [] idle
  finish : {b : List Command} → Heard b → Turn listening (bare vad_end ∷ b) idle

-- Turns one after another.
pub data Turns : Phase → List Command → Phase → Type 0 where
  stay : (p : Phase) → Turns p [] p
  then_turns :
      {p q r : Phase} {b bs : List Command} → Turn p b q → Turns q bs r → Turns p (b ++ bs) r

-- The outcome, if it returns, is a turn from phase `p`.
abbrev pub IsTurn : {W : Type 0} → Phase → List Command → Step W → Type 0
IsTurn p before (returned c) = (b : List Command) × Turn p b c.phase × (c.commands ≡ before ++ b)
IsTurn p before panicked = Unit
IsTurn p before unfinished = Unit

abbrev pub IsTurns : {W : Type 0} → Phase → List Command → Step W → Type 0
IsTurns p before (returned c) = (b : List Command) × Turns p b c.phase × (c.commands ≡ before ++ b)
IsTurns p before panicked = Unit
IsTurns p before unfinished = Unit
