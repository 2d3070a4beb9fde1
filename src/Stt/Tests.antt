-- ===== src/Stt/Tests.antt =====
-- The transcriber's theorems at concrete inputs, with the detector in thousandths.
use ai_assistant_driver.Common.{
  refl, List, ◌++◌, length, ok, ℕ, ◌≡◌, true, false, none, [], ◌∷◌, Bytes, codes,
}
use ai_assistant_driver.Common.Int.{pos}
use ai_assistant_driver.Vad.Arithmetic.{thousandths}
use ai_assistant_driver.Vad.{Detector}
use ai_assistant_driver.Stt.{WireEvent, send_audio}
use ai_assistant_driver.Stt.Session.{session, send_all}
use ai_assistant_driver.Stt.Heard.{event_of, events_of, heard, read_events-send_all}
use ai_assistant_driver.Wyoming.{Link, write_event}
use ai_assistant_driver.Wyoming.Events.{
  new_transcribe_event, new_audio_start_event, Entries, text, format, new_audio_chunk_event,
}
use ai_assistant_driver.Wyoming.Sequences.{write_events, read_events}
use ai_assistant_driver.Wyoming.Fixtures.{table_codec}

abbrev detector : Detector ℕ
detector = record {
  threshold = 50_000;
  threshold_ratio = 2_500;
  min_silence_frames = 2;
  sample_rate = 16000;
  bits_per_sample = 16;
  noise_floor = 10_000;
  learning_frames = 2;
  frames_processed = 2;
  is_learning = false;
  silent_frames = 0;
  was_speaking = true;
  speech_ended = false;
}

abbrev first : Bytes
first = 1 ∷ 0 ∷ 2 ∷ 0 ∷ []

abbrev second : Bytes
second = 0 ∷ 128 ∷ []

abbrev table : List Entries
table =
    ((codes "language", text (codes "en")) ∷ [])
    ∷ format (pos 16000) (pos 2) (pos 1)
    ∷ (new_audio_chunk_event (pos 16000) (pos 2) (pos 1) (pos 0)).json
    ∷ []

abbrev log : List (ℕ × WireEvent)
log =
    (send_all thousandths (first ∷ second ∷ [])
      (session none false (codes "en") detector [] 4 [])).network.log

abbrev quiet : Link
quiet = record { sent = []; breaks = none }

abbrev after_log : Link
after_log = (write_events (table_codec table) (events_of log) quiet).0

log_is_written : write_events (table_codec table) (events_of log) quiet ≡ (after_log, none)
unfolding write_events send_all send_audio write_event event_of new_transcribe_event
    new_audio_start_event new_audio_chunk_event
log_is_written = refl

read_events-send_all_example :
    (f : Bytes) × (after_log.sent ≡ [] ++ f)
    × (read_events (table_codec table) (length (events_of log)) (f ++ 9 ∷ [])
        ≡ ok (heard (codes "en") (first ∷ second ∷ []), 9 ∷ []))
read_events-send_all_example =
    read_events-send_all (table_codec table) thousandths first (second ∷ []) 4 (codes "en") detector
      (9 ∷ []) quiet after_log log_is_written
