-- ===== src/Vad.antt =====
-- internal/vad/detector.go: the energy detector for the end of speech. A method returns the new
-- detector. Counters are natural numbers; a negative count of frames or milliseconds acts as 0.
mod Tests
pub mod Arithmetic
pub mod Pcm
pub mod Silence
pub mod Learning
use mathlib.Core.List.{foldl}
use ai_assistant_driver.Common.{
  ℕ, zero, suc, ◌+◌, ◌*◌, ◌/◌, ◌%◌, ◌^◌, Bool, true, false, ◌&&◌, List, [], ◌∷◌, ltb, leb, ◌==◌,
  if◌then◌else◌, length, Bytes, bit_or, max,
}
use ai_assistant_driver.Common.Int.{ℤ, pos, pos_part, signed16}
use ai_assistant_driver.Vad.Arithmetic.{Float}

pub record Detector (N : Type 0) : Type 0 where
  pub threshold : N
  pub threshold_ratio : N
  pub min_silence_frames : ℕ
  pub sample_rate : ℕ
  pub bits_per_sample : ℕ
  pub noise_floor : N
  pub learning_frames : ℕ
  pub frames_processed : ℕ
  pub is_learning : Bool
  pub silent_frames : ℕ
  pub was_speaking : Bool
  pub speech_ended : Bool

abbrev chunk_duration_ms : ℕ
chunk_duration_ms = 32

-- The int16 samples of little-endian bytes; a byte left over is not read.
unfoldable pub samples : Bytes → List ℤ
samples [] = []
samples (lo ∷ []) = []
samples (lo ∷ hi ∷ rest) = signed16 (bit_or lo (hi * 2 ^ 8 % 2 ^ 16)) ∷ samples rest

abbrev frames_of_ms : ℕ → ℕ
frames_of_ms ms = let frames = ms / chunk_duration_ms in if ltb frames 1 then 1 else frames

module _ (F : Float) where
  open F use {Num, lt, add, mul, div, sqrt, of_int, literal}

  unfoldable with_threshold : Num → Detector Num → Detector Num
  with_threshold threshold d = record d { threshold = threshold }

  unfoldable pub with_threshold_ratio : Num → Detector Num → Detector Num
  with_threshold_ratio ratio d = record d { threshold_ratio = ratio }

  unfoldable pub with_min_silence_ms : ℤ → Detector Num → Detector Num
  with_min_silence_ms ms d = record d { min_silence_frames = frames_of_ms (pos_part ms) }

  unfoldable pub with_learning_frames : ℤ → Detector Num → Detector Num
  with_learning_frames frames d = record d { learning_frames = pos_part frames }

  unfoldable pub new_detector : List (Detector Num → Detector Num) → Detector Num
  new_detector options =
      foldl (λ d option. option d)
        (record {
          threshold = literal 0 0;
          threshold_ratio = literal 25 1;
          min_silence_frames = frames_of_ms 1000;
          sample_rate = 16000;
          bits_per_sample = 16;
          noise_floor = literal 0 0;
          learning_frames = 16;
          frames_processed = 0;
          is_learning = true;
          silent_frames = 0;
          was_speaking = false;
          speech_ended = false;
        })
        options

  unfoldable sum_of_squares : Num → List ℤ → Num
  sum_of_squares sum [] = sum
  sum_of_squares sum (s ∷ rest) = sum_of_squares (add sum (mul (of_int s) (of_int s))) rest

  unfoldable pub calculate_rms : Bytes → Num
  unfolding sum_of_squares samples
  calculate_rms audio =
      let read = samples audio in
      if length read == 0
      then literal 0 0
      else sqrt (div (sum_of_squares (literal 0 0) read) (of_int (pos (length read))))

  -- `if rms < minNoise { minNoise = rms }` from the noise floor.
  abbrev min_noise : Num → Num → Num
  min_noise rms floor = if lt rms floor then rms else floor

  -- `threshold = noiseFloor * thresholdRatio`, at least 50.
  abbrev threshold_for : Num → Num → Num
  threshold_for floor ratio =
      let t = mul floor ratio in if lt t (literal 50 0) then literal 50 0 else t

  -- The branch of a frame while the detector learns; `d` has this frame counted already.
  unfoldable pub learn : Num → Detector Num → Detector Num
  learn rms d =
      let floor =
        if d.frames_processed == 1
        then rms
        else (add (mul d.noise_floor (literal 95 2))
            (mul (min_noise rms d.noise_floor) (literal 5 2))) in
      if leb d.learning_frames d.frames_processed
      then (record d {
        noise_floor = floor;
        is_learning = false;
        threshold = threshold_for floor d.threshold_ratio;
        was_speaking = true;
      })
      else (record d { noise_floor = floor })

  -- Every hundredth frame the noise floor moves towards a quiet frame.
  unfoldable pub adapt : Num → Detector Num → Detector Num
  adapt rms d =
      if (d.frames_processed % 100 == 0) && lt rms (mul d.noise_floor (literal 15 1))
      then (let floor =
            add (mul d.noise_floor (literal 99 2))
              (mul (min_noise rms d.noise_floor) (literal 1 2)) in
          record d { noise_floor = floor; threshold = threshold_for floor d.threshold_ratio })
      else d

  -- `silentFrames` and `wasSpeaking` after the comparison with the threshold.
  unfoldable count_silence : Num → Detector Num → Detector Num
  count_silence rms d =
      if lt rms d.threshold
      then (record d { silent_frames = d.silent_frames + 1 })
      else (record d { silent_frames = 0; was_speaking = true })

  -- The last lines of ProcessAudio: (detector, isSpeaking, silenceEnded).
  unfoldable judge : Detector Num → Detector Num × Bool × Bool
  judge d =
      if leb d.min_silence_frames d.silent_frames && d.was_speaking
      then (record d { speech_ended = true }, false, true)
      else (d, d.was_speaking, false)

  unfoldable pub process_rms : Num → Detector Num → Detector Num × Bool × Bool
  unfolding learn adapt count_silence judge
  process_rms rms d =
      let counted = record d { frames_processed = d.frames_processed + 1 } in
      if d.is_learning
      then (learn rms counted, true, false)
      else judge (count_silence rms (adapt rms counted))

  unfoldable pub process_audio : Bytes → Detector Num → Detector Num × Bool × Bool
  unfolding process_rms calculate_rms
  process_audio audio d = process_rms (calculate_rms audio) d

  unfoldable pub reset : Detector Num → Detector Num
  reset d = record d {
    silent_frames = 0;
    was_speaking = false;
    speech_ended = false;
    frames_processed = 0;
    is_learning = true;
    noise_floor = literal 0 0;
    threshold = literal 0 0;
  }

-- SpeechEnded reads the flag and clears it.
unfoldable pub take_speech_ended : {N : Type 0} → Detector N → Detector N × Bool
take_speech_ended d =
    if d.speech_ended then (record d { speech_ended = false }, true) else (d, false)
