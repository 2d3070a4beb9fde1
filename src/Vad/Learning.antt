-- ===== src/Vad/Learning.antt =====
-- The learning phase: how long it lasts, and what it leaves.
use ai_assistant_driver.Common.{
  ℕ, ◌+◌, ◌<◌, ◌≡◌, ◌↔◌, true, false, ◌||◌, List, [], ◌∷◌, ltb, leb, length, max, arith,
}
use ai_assistant_driver.Vad.Arithmetic.{Float}
use ai_assistant_driver.Vad.{Detector, process_rms, reset}
use ai_assistant_driver.Vad.Silence.{frames}

module _ (F : Float) where
  open F use {Num, lt, literal, lt_irrefl}

  -- The counters agree with the phase.
  abbrev IsPaced : ℕ → ℕ → Detector Num → Type 0
  IsPaced seen n d =
      (d.learning_frames ≡ n)
      × (d.frames_processed ≡ seen)
      × (d.is_learning ≡ (ltb seen n || leb seen 0))

  step-IsPaced :
      (seen n : ℕ) (rms : Num) (d : Detector Num)
      → IsPaced seen n d
      → IsPaced (seen + 1) n (process_rms F rms d).0
  unfolding process_rms
  step-IsPaced seen n rms d h = ground arith

  frames-IsPaced :
      (fs : List Num) (seen n : ℕ) (d : Detector Num)
      → IsPaced seen n d
      → IsPaced (seen + length fs) n (frames F fs d)
  unfolding frames
  frames-IsPaced [] seen n d h = ground arith
  frames-IsPaced (rms ∷ rest) seen n d h =
      ground (
        arith,
        step-IsPaced seen n rms d h,
        frames-IsPaced rest (seen + 1) n (process_rms F rms d).0,
      )

  -- After Reset the detector learns for `learning_frames` frames, and for one at least.
  frames-reset_is_learning :
      (fs : List Num) (d : Detector Num)
      → ((frames F fs (reset F d)).is_learning ≡ true) ↔ (length fs < max 1 d.learning_frames)
  unfolding reset
  frames-reset_is_learning fs d =
      let paced = frames-IsPaced fs 0 d.learning_frames (reset F d) (ground arith) in
      (λ e. ground arith, λ h. ground arith)

  -- A detector that has learned has a threshold not below 50, and has seen speech.
  abbrev pub IsReady : Detector Num → Type 0
  IsReady d =
      (d.is_learning ≡ false) → (lt d.threshold (literal 50 0) ≡ false) × (d.was_speaking ≡ true)

  step-IsReady : (rms : Num) (d : Detector Num) → IsReady d → IsReady (process_rms F rms d).0
  unfolding process_rms
  step-IsReady rms d h l = ground (arith, lt_irrefl (literal 50 0))

  frames-IsReady : (fs : List Num) (d : Detector Num) → IsReady d → IsReady (frames F fs d)
  unfolding frames
  frames-IsReady [] d h = h
  frames-IsReady (rms ∷ rest) d h =
      frames-IsReady rest (process_rms F rms d).0 (step-IsReady rms d h)

  -- Whatever is heard after Reset: once learning is over the threshold is never below 50, and the
  -- detector counts as speaking.
  pub frames-reset_ready :
      (fs : List Num) (d : Detector Num)
      → (frames F fs (reset F d)).is_learning ≡ false
      → (lt (frames F fs (reset F d)).threshold (literal 50 0) ≡ false)
        × ((frames F fs (reset F d)).was_speaking ≡ true)
  unfolding reset
  frames-reset_ready fs d = frames-IsReady fs (reset F d) (λ l. cc)
