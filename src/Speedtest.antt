-- ===== src/Speedtest.antt =====
-- internal/tools/speedtest: the speed of the first address that can be downloaded from, and the
-- latency. `F` is the arithmetic of float64; a clock is not modelled, so the answers come with the time
-- that they took. Each address is asked once.
pub mod Fastest
mod Tests
use ai_assistant_driver.Common.{
  ℕ, ◌*◌, ◌==◌, Bool, some, List, [], ◌∷◌, ◌++◌, if◌then◌else◌, Text, codes, decimal, Result, ok,
  err, ◌>>=◌,
}
use ai_assistant_driver.Common.Int.{pos}
use ai_assistant_driver.Vad.Arithmetic.{Float}
use ai_assistant_driver.Llm.{Tool}
use ai_assistant_driver.Llm.Schema.{no_fields}
use ai_assistant_driver.Llm.Reports.{report_of}

-- A response: its status, the length of the body if it can be read, and the seconds until then.
pub record Download (N : Type 0) : Type 0 where
  pub status : ℕ
  pub body : Result Text ℕ
  pub seconds : N

-- What the network answers to a request for an address, if it answers, and after how many milliseconds
-- the first of the service for the latency comes.
pub record NetAnswers (N : Type 0) : Type 0 where
  pub download : Text → Result Text (Download N)
  pub latency : Result Text ℕ

-- Without the time of the measurement.
pub record SpeedtestResult (N : Type 0) : Type 0 where
  pub download_speed_mbps : N
  pub latency_ms : ℕ

abbrev pub urls : List Text
urls =
    codes "https://fast.com/speedtest/assets/speedtest.js"
    ∷ codes "https://speed.hetzner.de/1MB.bin"
    ∷ codes "https://proof.ovh.net/files/1Mb.dat"
    ∷ []

abbrev pub all_failed : Text
all_failed = codes "all speedtest URLs failed"

module _ (F : Float) where
  open F use {Num, lt, div, of_int}

  -- `float64(n*8) / seconds / 1_000_000`
  unfoldable mbps : ℕ → Num → Num
  mbps n seconds = div (div (of_int (pos (n * 8))) seconds) (of_int (pos 1_000_000))

  -- testURL
  unfoldable pub test_url : Result Text (Download Num) → Result Text Num
  unfolding mbps
  test_url answer = do
    d ← answer
    if d.status == 200
        then (do n ← d.body; ok (mbps n d.seconds))
        else err (codes "unexpected status: " ++ decimal d.status)

  abbrev pub is_positive : Num → Bool
  is_positive x = lt (of_int (pos 0)) x

  -- The loop over the addresses.
  unfoldable pub first_speed : (Text → Result Text (Download Num)) → List Text → Result Text Num
  unfolding test_url
  first_speed download [] = err all_failed
  first_speed download (url ∷ rest) =
      let later = first_speed download rest in
      elim (test_url (download url)) [
        | err e ↦ later
        | ok speed ↦ if is_positive speed then ok speed else later
      ]

  abbrev pub or_zero : Result Text ℕ → ℕ
  or_zero (ok ms) = ms
  or_zero (err e) = 0

  -- GetSpeedtest
  unfoldable pub get_speedtest : NetAnswers Num → Result Text (SpeedtestResult Num)
  unfolding first_speed
  get_speedtest net = elim (first_speed net.download urls) [
    | err e ↦ err (codes "failed to measure download speed: " ++ e)
    | ok speed ↦ ok (record { download_speed_mbps = speed; latency_ms = or_zero net.latency })
  ]

-- speedtest_tool.go; encoding/json and the measurement are parameters.
unfoldable pub speedtest_tool :
    {W N : Type 0}
    → (SpeedtestResult N → Result Text Text)
    → (W → W × Result Text (SpeedtestResult N))
    → Tool W
unfolding report_of
speedtest_tool marshal measure = record {
  name = codes "get_speedtest";
  description = codes "Run a speed test to measure internet download speed in Mbps.";
  parameters = some no_fields;
  execute = report_of marshal measure;
}
