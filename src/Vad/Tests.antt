-- ===== src/Vad/Tests.antt =====
-- Runs of the detector, and its theorems at concrete inputs, in thousandths.
use ai_assistant_driver.Common.{arith, ℕ, ◌≡◌, refl, true, false, List, [], ◌∷◌}
use ai_assistant_driver.Common.Int.{pos}
use ai_assistant_driver.Vad.Arithmetic.{thousandths}
use ai_assistant_driver.Vad.{
  Detector, new_detector, with_learning_frames, with_min_silence_ms, process_rms, reset,
  take_speech_ended, adapt,
}
use ai_assistant_driver.Vad.Silence.{frames, any_report, AllQuiet, take_speech_ended_quiet}
use ai_assistant_driver.Vad.Learning.{frames-reset_ready}

-- Two frames to learn, 64 ms of silence.
abbrev detector : Detector ℕ
detector = record {
  threshold = 50_000;
  threshold_ratio = 2_500;
  min_silence_frames = 2;
  sample_rate = 16000;
  bits_per_sample = 16;
  noise_floor = 10_000;
  learning_frames = 2;
  frames_processed = 2;
  is_learning = false;
  silent_frames = 0;
  was_speaking = true;
  speech_ended = false;
}

abbrev speech_then_silence : List ℕ
speech_then_silence = 90_000 ∷ 20_000 ∷ 10_000 ∷ []

silence_is_reported : any_report thousandths speech_then_silence detector ≡ true
unfolding any_report process_rms
silence_is_reported = refl

options_apply :
    (new_detector thousandths (
      with_learning_frames thousandths (pos 2)
      ∷ with_min_silence_ms thousandths (pos 64)
      ∷ [])).min_silence_frames
    ≡ 2
unfolding new_detector with_learning_frames with_min_silence_ms
options_apply = refl

abbrev silence : List ℕ
silence = 20_000 ∷ 10_000 ∷ []

silence-AllQuiet : AllQuiet thousandths silence detector
unfolding process_rms adapt
silence-AllQuiet = (refl, (refl, tt))

take_speech_ended_quiet_example : (take_speech_ended (frames thousandths silence detector)).1 ≡ true
take_speech_ended_quiet_example =
    take_speech_ended_quiet thousandths silence detector refl refl refl silence-AllQuiet
      (omega arith)

ready_example :
    (thousandths.lt
        (frames thousandths (9_000 ∷ 8_000 ∷ []) (reset thousandths detector)).threshold
        (thousandths.literal 50 0)
      ≡ false)
    × ((frames thousandths (9_000 ∷ 8_000 ∷ []) (reset thousandths detector)).was_speaking ≡ true)
unfolding frames process_rms reset
ready_example = frames-reset_ready thousandths (9_000 ∷ 8_000 ∷ []) detector refl
