-- ===== src/Vad/Silence.antt =====
-- The end of speech: when it is reported, and how the flag is read.
use ai_assistant_driver.Common.{
  ◌+◌, ◌≤◌, ◌<◌, ◌≡◌, refl, Bool, true, false, ◌||◌, List, [], ◌∷◌, leb, length, if◌then◌else◌,
  arith, Bool-cases, inl, inr,
}
use ai_assistant_driver.Vad.Arithmetic.{Float}
use ai_assistant_driver.Vad.{Detector, process_rms, take_speech_ended, adapt}

module _ (F : Float) where
  open F use {Num, lt}

  -- The detector after the frames, given by their volumes, and what each frame reported.
  unfoldable pub frames : List Num → Detector Num → Detector Num
  frames [] d = d
  frames (rms ∷ rest) d = frames rest (process_rms F rms d).0

  unfoldable pub any_report : List Num → Detector Num → Bool
  any_report [] d = false
  any_report (rms ∷ rest) d =
      let (d', speaking, ended) = process_rms F rms d in ended || any_report rest d'

  -- The volume is below the threshold that this frame is compared with.
  abbrev is_quiet : Num → Detector Num → Bool
  is_quiet rms d =
      lt rms (adapt F rms (record d { frames_processed = d.frames_processed + 1 })).threshold

  abbrev pub AllQuiet : List Num → Detector Num → Type 0
  AllQuiet [] d = Unit
  AllQuiet (rms ∷ rest) d = (is_quiet rms d ≡ true) × AllQuiet rest (process_rms F rms d).0

  step_latch :
      (rms : Num) (d : Detector Num)
      → (process_rms F rms d).0.speech_ended ≡ ((process_rms F rms d).2 || d.speech_ended)
  unfolding process_rms
  step_latch rms d = ground arith

  step_silent :
      (rms : Num) (d : Detector Num)
      → ((process_rms F rms d).0.silent_frames ≤ d.silent_frames + 1)
        × ((process_rms F rms d).0.min_silence_frames ≡ d.min_silence_frames)
        × ((process_rms F rms d).2 ≡ true → d.min_silence_frames ≤ d.silent_frames + 1)
  unfolding process_rms
  step_silent rms d = (ground arith, ground arith, λ e. ground arith)

  -- SpeechEnded after any frames tells whether the flag was set before or one of the frames
  -- reported the end of speech.
  pub take_speech_ended-frames :
      (fs : List Num) (d : Detector Num)
      → (take_speech_ended (frames fs d)).1 ≡ any_report fs d || d.speech_ended
  unfolding take_speech_ended frames any_report
  take_speech_ended-frames [] d = ground arith
  take_speech_ended-frames (rms ∷ rest) d =
      ground (arith, step_latch rms d, take_speech_ended-frames rest (process_rms F rms d).0)

  -- No end of speech is reported before the required number of frames has passed: if the silent
  -- frames counted and those to come stay below the minimum, none of them reports it.
  any_report_early :
      (fs : List Num) (d : Detector Num)
      → d.silent_frames + length fs < d.min_silence_frames
      → any_report fs d ≡ false
  unfolding any_report
  any_report_early [] d h = refl
  any_report_early (rms ∷ rest) d h =
      ground (arith, step_silent rms d, any_report_early rest (process_rms F rms d).0)

  step_quiet :
      (rms : Num) (d : Detector Num)
      → d.is_learning ≡ false
      → d.was_speaking ≡ true
      → is_quiet rms d ≡ true
      → let (d', speaking, ended) = process_rms F rms d in
        (d'.silent_frames ≡ d.silent_frames + 1)
        × (d'.is_learning ≡ false)
        × (d'.was_speaking ≡ true)
        × (d'.min_silence_frames ≡ d.min_silence_frames)
        × (ended ≡ leb d.min_silence_frames (d.silent_frames + 1))
  unfolding process_rms
  step_quiet rms d l w q = ground arith

  -- Once the detector has learned, enough quiet frames in a row report the end of speech.
  any_report_quiet :
      (fs : List Num) (d : Detector Num)
      → d.is_learning ≡ false
      → d.was_speaking ≡ true
      → AllQuiet fs d
      → 0 < length fs
      → d.min_silence_frames ≤ d.silent_frames + length fs
      → any_report fs d ≡ true
  unfolding any_report
  any_report_quiet [] d l w q some_frame h = absurd (omega arith)
  any_report_quiet (rms ∷ []) d l w (q, rest) some_frame h = ground (arith, step_quiet rms d l w q)
  any_report_quiet (rms ∷ r ∷ rs) d l w (q, more) some_frame h =
      ground (arith, step_quiet rms d l w q, any_report_quiet (r ∷ rs) (process_rms F rms d).0)

  -- Once the detector has learned that somebody speaks, and no end of speech was reported that is not
  -- taken yet, SpeechEnded after quiet frames in a row, at least one, tells whether the silent frames
  -- have reached the minimum: not earlier and not later.
  pub take_speech_ended_quiet :
      (fs : List Num) (d : Detector Num)
      → d.is_learning ≡ false
      → d.was_speaking ≡ true
      → d.speech_ended ≡ false
      → AllQuiet fs d
      → 0 < length fs
      → (take_speech_ended (frames fs d)).1 ≡ leb d.min_silence_frames (d.silent_frames + length fs)
  take_speech_ended_quiet fs d l w untaken q some_frame =
      let flag = take_speech_ended-frames fs d in
      elim (Bool-cases (leb d.min_silence_frames (d.silent_frames + length fs))) [
        | inl late ↦
            let reported = any_report_quiet fs d l w q some_frame (ground (arith, late)) in
            ground (arith, flag, reported, late, untaken)
        | inr early ↦
            let silent = any_report_early fs d (ground (arith, early)) in
            ground (arith, flag, silent, early, untaken)
      ]

  -- Quiet frames count up and a loud one starts again, once the detector has learned.
  process_rms_silent_frames :
      (rms : Num) (d : Detector Num)
      → d.is_learning ≡ false
      → (process_rms F rms d).0.silent_frames ≡ (if is_quiet rms d then d.silent_frames + 1 else 0)
  unfolding process_rms
  process_rms_silent_frames rms d l = ground arith
