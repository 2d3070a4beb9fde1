-- ===== src/Controller/Triggers.antt =====
-- internal/controller/controller.go: what the HTTP handlers ask of the controller.
use ai_assistant_driver.Common.{
  Bool, true, false, ◌||◌, Option, none, some, Text, codes, if◌then◌else◌, ok, err,
}
use ai_assistant_driver.Esphome.Command.{bare, voice_assistant_start}
use ai_assistant_driver.Controller.{
  Phase, idle, listening, thinking, reply, Config, Controller, send_command,
}
use ai_assistant_driver.Controller.Handlers.{phase_eq}

-- Phase.String
unfoldable pub phase_name : Phase → Text
phase_name idle = codes "idle"
phase_name listening = codes "listening"
phase_name thinking = codes "thinking"
phase_name reply = codes "reply"

-- The phases in which TriggerTTS goes on.
abbrev pub may_speak : Phase → Bool
may_speak p = phase_eq p idle || phase_eq p reply

pub data TtsError : Type 0 where
  invalid_phase : Phase → TtsError
  synthesis_failed : Text → TtsError

module _ {W : Type 0} (cfg : Config W) where
  -- TriggerTTS: it synthesizes the text, and does nothing with the audio.
  unfoldable pub trigger_tts : Text → Controller W → Controller W × Option TtsError
  trigger_tts text c =
      if may_speak c.phase
      then (let (w, answer) = cfg.services.synthesize text c.world in
          (
            record c { world = w },
            elim answer [ err e ↦ some (synthesis_failed e) | ok audio ↦ none ],
          ))
      else (c, some (invalid_phase c.phase))

-- TriggerListening, with whether it succeeded.
unfoldable pub trigger_listening : {W : Type 0} → Controller W → Controller W × Bool
trigger_listening c =
    if phase_eq c.phase idle
    then (send_command (bare voice_assistant_start) c, true)
    else (c, false)

-- ControlLight
unfoldable pub control_light : {W : Type 0} → Text → Controller W → Controller W
control_light action c = c
