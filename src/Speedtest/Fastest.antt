-- ===== src/Speedtest/Fastest.antt =====
-- Which address the speed comes from.
use ai_assistant_driver.Common.{◌≡◌, ◌⊎◌, true, false, List, ◌∷◌, ◌++◌, All, Text, Result, ok, err}
use ai_assistant_driver.Vad.Arithmetic.{Float}
use ai_assistant_driver.Speedtest.{Download, is_positive, test_url}

module _ (F : Float) where
  open F use {Num}

  -- The download gives a speed that is above zero.
  abbrev Gives : Result Text (Download Num) → Num → Type 0
  Gives answer speed = (test_url F answer ≡ ok speed) × (is_positive F speed ≡ true)

  -- It fails, or gives a speed that is not.
  abbrev pub IsUseless : Result Text (Download Num) → Type 0
  IsUseless answer =
      ((e : Text) × (test_url F answer ≡ err e))
      ⊎ ((speed : Num) × (test_url F answer ≡ ok speed) × (is_positive F speed ≡ false))

  module _ (download : Text → Result Text (Download Num)) where
    -- The first useful address among some, with its speed.
    abbrev pub First : List Text → Num → Type 0
    First us speed =
        (before : List Text) × (after : List Text) × (url : Text) × (us ≡ before ++ url ∷ after)
        × All (λ u. IsUseless (download u)) before
        × Gives (download url) speed
