-- ===== src/Speedtest/Tests.antt =====
-- A measurement in whole thousandths: the first address is not found, the second gives a megabyte in
-- two seconds.
use ai_assistant_driver.Common.{ℕ, ◌≡◌, refl, if◌then◌else◌, Text, text_eq, codes, Result, ok, err}
use ai_assistant_driver.Vad.Arithmetic.{thousandths}
use ai_assistant_driver.Speedtest.{Download, NetAnswers, get_speedtest}

abbrev answer_for : Text → Result Text (Download ℕ)
answer_for url =
    if text_eq url (codes "https://speed.hetzner.de/1MB.bin")
    then ok (record { status = 200; body = ok 1_000_000; seconds = 2000 })
    else ok (record { status = 404; body = ok 0; seconds = 100 })

abbrev net : NetAnswers ℕ
net = record { download = answer_for; latency = err (codes "no route") }

four_mbps :
    get_speedtest thousandths net ≡ ok (record { download_speed_mbps = 4000; latency_ms = 0 })
unfolding get_speedtest
four_mbps = refl
