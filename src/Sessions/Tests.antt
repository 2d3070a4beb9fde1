-- ===== src/Sessions/Tests.antt =====
-- A listening phase at concrete inputs: four chunks, in thousandths.
use ai_assistant_driver.Common.{
  arith, ℕ, ◌≡◌, refl, true, false, none, some, [], ◌∷◌, ◌++◌, codes, Bytes, ok, err,
}
use ai_assistant_driver.Vad.Arithmetic.{thousandths}
use ai_assistant_driver.Vad.{Detector, process_audio, process_rms, calculate_rms, adapt, reset}
use ai_assistant_driver.Stt.{SttTranscriber, transcript}
use ai_assistant_driver.Phases.{Services}
use ai_assistant_driver.Controller.{idle, Controller}
use ai_assistant_driver.Controller.Handlers.{after_transcript, run}
use ai_assistant_driver.Esphome.Command.{bare, stt_start, vad_end}
use ai_assistant_driver.Sessions.{Recognizer, World, config_with}
use ai_assistant_driver.Sessions.Logged.{session_events}
use ai_assistant_driver.Sessions.Listening
use ai_assistant_driver.Sessions.Device
use ai_assistant_driver.Esphome.Client.{voice_assistant_request, new_client}

-- Two frames to learn, two of silence.
abbrev detector : Detector ℕ
detector = record {
  threshold = 0;
  threshold_ratio = 2_500;
  min_silence_frames = 2;
  sample_rate = 16000;
  bits_per_sample = 16;
  noise_floor = 0;
  learning_frames = 2;
  frames_processed = 0;
  is_learning = true;
  silent_frames = 0;
  was_speaking = false;
  speech_ended = false;
}

abbrev transcriber : SttTranscriber ℕ
transcriber = record {
  client = some 4;
  language = codes "en";
  vad_detector = detector;
  closed = true;
  audio_sent = true;
  transcribe_sent = true;
  network = record { dials = []; writes = []; next_connection = 5; log = [] };
}

abbrev recognizer : Recognizer ℕ
recognizer = record {
  send_text = λ e. codes "not sent";
  recv_text = λ e. codes "not received";
  answer = λ v. (v, transcript (codes "lights on") true);
}

abbrev services : Services (World thousandths ℕ)
services = record {
  chat = λ prompt context tools w. (w, ok (codes "done", []));
  history_context = λ text w. [];
  add_message = λ text response w. w;
  synthesize = λ text w. (w, err (codes "refused"));
  save_wav_file = λ pcm w. (w, err (codes "refused"));
}

abbrev resting : Controller (World thousandths ℕ)
resting = record {
  phase = idle;
  transcript = [];
  llm_response = [];
  tts_cleanup = none;
  commands = [];
  errors = [];
  world = (transcriber, 0);
}

abbrev loud : Bytes
loud = 0 ∷ 64 ∷ []

abbrev still : Bytes
still = 0 ∷ 0 ∷ []

chunks-Continue :
    Listening.Continue thousandths (loud ∷ loud ∷ still ∷ []) (reset thousandths detector)
unfolding process_audio process_rms adapt calculate_rms reset
chunks-Continue = (refl, refl, (refl, refl, (refl, refl, tt)))

abbrev four_heard : Detector ℕ
four_heard =
    (process_audio thousandths still
      (Listening.listened thousandths (loud ∷ loud ∷ still ∷ []) (reset thousandths detector))).0

still_ends : four_heard.speech_ended ≡ true
unfolding process_audio process_rms adapt calculate_rms reset
still_ends = refl

run-listening_example :
    run
      (config_with thousandths recognizer services false [])
      3
      (Listening.wake
        ∷ (Listening.chunks_of (loud ∷ loud ∷ still ∷ []) ++ Listening.chunk still ∷ []))
      resting
    ≡ Listening.then_run thousandths recognizer services false [] 3 resting [] (
        after_transcript
          (config_with thousandths recognizer services false [])
          3
          (some (codes "lights on"))
          (Listening.hearing thousandths recognizer services false [] 3 resting
            (bare stt_start ∷ bare vad_end ∷ [])
            (Listening.finished thousandths
              (codes "en")
              four_heard
              6
              (session_events 5 (codes "en") (loud ∷ loud ∷ still ∷ still ∷ [])))
            0))
run-listening_example =
    Listening.run-listening thousandths recognizer services false [] 3 resting loud
      (loud ∷ still ∷ []) still [] [] transcriber 5 [] 0 0 (codes "lights on") true chunks-Continue
      refl still_ends refl

run-device_events_example :
    run
      (config_with thousandths recognizer services false [])
      3
      (Device.device_events (
        Device.handle_messages
          (λ state. codes "idle")
          (voice_assistant_request true ∷ Device.audio_messages (loud ∷ loud ∷ still ∷ still ∷ []))
          new_client))
      resting
    ≡ Listening.then_run thousandths recognizer services false [] 3 resting [] (
        after_transcript
          (config_with thousandths recognizer services false [])
          3
          (some (codes "lights on"))
          (Listening.hearing thousandths recognizer services false [] 3 resting
            (bare stt_start ∷ bare vad_end ∷ [])
            (Listening.finished thousandths
              (codes "en")
              four_heard
              6
              (session_events 5 (codes "en") (loud ∷ loud ∷ still ∷ still ∷ [])))
            0))
unfolding new_client
run-device_events_example =
    Device.run-device_events thousandths recognizer services false [] 3 resting
      (λ state. codes "idle") new_client loud (loud ∷ still ∷ []) still [] transcriber 5 [] 0 0
      (codes "lights on") true refl refl refl (omega arith) chunks-Continue refl still_ends refl
