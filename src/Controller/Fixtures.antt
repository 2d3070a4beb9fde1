-- ===== src/Controller/Fixtures.antt =====
-- Services for tests of the controller: they count their calls, and always hear the same.
use ai_assistant_driver.Common.{ℕ, ◌+◌, Bool, true, false, none, some, [], ◌∷◌, codes, ok, err}
use ai_assistant_driver.Phases.{Services}
use ai_assistant_driver.Esphome.Command.{bare, stt_start}
use ai_assistant_driver.Controller.{listening, Transcriber, Config, Controller}

abbrev microphone : Transcriber ℕ
microphone = record {
  send_audio = λ b w. (w + 1, none);
  send_audio_stop = λ w. (w + 1, none);
  recv = λ w. (w + 1, ok (some (codes "lights on")));
  close = λ w. (w + 1, none);
  reset = λ w. w;
  reset_vad = λ w. w;
  silence_detected = λ w. (w, true);
}

-- The model answers at once; the voice works or it does not.
abbrev pub services : Bool → Services ℕ
services voice_works = record {
  chat = λ prompt context tools w. (w + 1, ok (codes "done", []));
  history_context = λ transcript w. [];
  add_message = λ transcript response w. w + 1;
  synthesize = λ text w.
      (w + 1, elim voice_works [ true ↦ ok (1 ∷ 2 ∷ []) | false ↦ err (codes "refused") ]);
  save_wav_file = λ pcm w. (w + 1, ok (codes "tts.wav"));
}

abbrev pub config : Bool → Config ℕ
config voice_works = record {
  stt = microphone;
  services = services voice_works;
  has_history = true;
  executor = [];
}

abbrev pub awake : Controller ℕ
awake = record {
  phase = listening;
  transcript = [];
  llm_response = [];
  tts_cleanup = none;
  commands = bare stt_start ∷ [];
  errors = [];
  world = 0;
}
