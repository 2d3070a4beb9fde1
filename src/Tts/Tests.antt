-- ===== src/Tts/Tests.antt =====
-- The synthesizer and the WAV file at concrete inputs.
use ai_assistant_driver.Common.{
  ◌+◌, ◌-◌, ◌*◌, ◌/◌, Bytes, length, ◌≡◌, refl, true, false, none, some, List, [], ◌∷◌, ◌++◌, ok,
  arith, codes,
}
use ai_assistant_driver.Common.Int.{pos}
use ai_assistant_driver.Vad.Arithmetic.{thousandths}
use ai_assistant_driver.Tts.Wav.{convert}
use ai_assistant_driver.Tts.{synthesize, new_synthesizer}
use ai_assistant_driver.Tts.Spoken.{spoken, piper_events, synthesize-spoken}
use ai_assistant_driver.Wyoming.{Link, write_event}
use ai_assistant_driver.Wyoming.Events.{
  new_audio_start_event, Entries, format, new_audio_chunk_event, new_audio_stop_event,
}
use ai_assistant_driver.Wyoming.Sequences.{write_events}
use ai_assistant_driver.Wyoming.Fixtures.{table_codec, structs_of}
use ai_assistant_driver.Tts.Files.{
  Truncating, FileAnswers, Directory, encode_wav, resample_and_convert, encoded, save_wav_file,
}
use ai_assistant_driver.Tts.Encoded.{IsRounded, read_wav-encode_wav}
use ai_assistant_driver.Tts.Cleaned.{IsClean, save_wav_file-IsClean}
use ai_assistant_driver.Tts.Header.{read_wav}

-- Whole thousandths, and the int of one.
abbrev doubling : Truncating
doubling = record { float = thousandths; sub = λ x y. x - y; to_int = λ x. pos (x / 1000) }

-- Two samples that come at half the rate give four.
doubling-IsRounded : IsRounded doubling 8000 2 4
doubling-IsRounded = (refl, λ i h. (i * 1000 * 1000 / 2000 / 1000, refl, omega arith))

resampled :
    resample_and_convert doubling 8000 16 1 (1 ∷ 0 ∷ 3 ∷ 0 ∷ [])
    ≡ some (1 ∷ 0 ∷ 2 ∷ 0 ∷ 3 ∷ 0 ∷ 0 ∷ 0 ∷ [])
unfolding resample_and_convert
resampled = refl

read_wav-encode_wav_example :
    (file : Bytes) × (bytes : Bytes) × (encode_wav doubling 8000 16 1 (1 ∷ 0 ∷ 3 ∷ 0 ∷ [])
      ≡ encoded file)
    × (resample_and_convert doubling 8000 16 1 (1 ∷ 0 ∷ 3 ∷ 0 ∷ []) ≡ some bytes)
    × (length bytes ≡ 8)
    × (read_wav file
        ≡ some (
          record {
            riff_size = 36 + length bytes;
            encoding = 1;
            channels = 1;
            sample_rate = 16000;
            byte_rate = 32000;
            block_align = 2;
            bits_per_sample = 16;
            data_size = length bytes;
          },
          bytes,
        ))
unfolding convert
read_wav-encode_wav_example =
    read_wav-encode_wav doubling 8000 16 1 4 (1 ∷ 0 ∷ 3 ∷ 0 ∷ []) (λ e. cc) doubling-IsRounded
      (omega arith)

-- The write fails, and the temporary file is removed.
abbrev no_space : FileAnswers
no_space = record {
  mkdir_works = true;
  created = some (codes "tts-2.wav");
  write_works = false;
  close_works = true;
  remove_works = true;
}

abbrev directory : Directory
directory = (codes "tts-1.wav", 9 ∷ []) ∷ []

save_wav_file-IsClean_example :
    IsClean
      (encode_wav doubling 16000 16 1 (1 ∷ 0 ∷ []))
      directory
      (save_wav_file doubling no_space 16000 16 1 (1 ∷ 0 ∷ []) directory).0
      (save_wav_file doubling no_space 16000 16 1 (1 ∷ 0 ∷ []) directory).1
save_wav_file-IsClean_example =
    save_wav_file-IsClean doubling no_space 16000 16 1 (1 ∷ 0 ∷ []) directory refl
      (λ name e. let same : codes "tts-2.wav" ≡ name = cc e in rw (← same) (refl, tt))

defaults :
    new_synthesizer (record {
      host = [];
      port = pos 0;
      language = codes "nl";
      storage_path = [];
      history_storage_path = [];
      synthesizer_host = [];
      synthesizer_port = pos 0;
      synthesizer_language = [];
      http_host = [];
      http_port = pos 0;
    })
    ≡ record { host = codes "localhost"; port = pos 10200; language = codes "nl" }
unfolding new_synthesizer
defaults = refl

abbrev table : List Entries
table =
    format (pos 22050) (pos 2) (pos 1)
    ∷ (new_audio_chunk_event (pos 22050) (pos 2) (pos 1) (pos 0)).json
    ∷ (new_audio_stop_event (pos 0)).json
    ∷ []

abbrev quiet : Link
quiet = record { sent = 5 ∷ []; breaks = none }

abbrev two_chunks : List Bytes
two_chunks = (1 ∷ 2 ∷ []) ∷ (3 ∷ 4 ∷ []) ∷ []

abbrev after_sound : Link
after_sound =
    (write_events (table_codec table)
      (spoken (structs_of (table_codec table)) (pos 22050) (pos 2) (pos 1) two_chunks) quiet).0

sound_is_written :
    write_events
      (table_codec table)
      (spoken (structs_of (table_codec table)) (pos 22050) (pos 2) (pos 1) two_chunks)
      quiet
    ≡ (after_sound, none)
unfolding write_events write_event new_audio_start_event new_audio_chunk_event new_audio_stop_event
sound_is_written = refl

synthesize-spoken_example :
    (f : Bytes) × (after_sound.sent ≡ 5 ∷ [] ++ f)
    × (synthesize true true (piper_events (structs_of (table_codec table)) 6 (f ++ 9 ∷ []))
        ≡ ok (1 ∷ 2 ∷ 3 ∷ 4 ∷ []))
synthesize-spoken_example =
    synthesize-spoken (structs_of (table_codec table)) (pos 22050) (pos 2) (pos 1) two_chunks 2
      (9 ∷ []) quiet after_sound sound_is_written
