-- ===== src/Phases/Reply.antt =====
-- internal/phases/reply.go: speak the response, and tell the device about it.
use ai_assistant_driver.Common.{Option, none, some, List, [], ◌∷◌, Text, Bytes, Result, ok, err}
use ai_assistant_driver.Esphome.Command.{Command, tts_start, tts_end, tts_end_payload}
use ai_assistant_driver.Phases.{Services, WavServer, Outcome, returned, panicked}

abbrev pub tts_start_command : Text → Command
tts_start_command response = record { type = tts_start; payload = tts_end_payload response [] }

abbrev pub tts_end_command : Text → Text → Command
tts_end_command response url = record { type = tts_end; payload = tts_end_payload response url }

-- What a run leaves: the world, the commands it sent, and the cleanup function or the error.
pub record Replied (W : Type 0) : Type 0 where
  pub world : W
  pub sent : List Command
  pub result : Result Text (W → W)

module _ {W : Type 0} (s : Services W) where
  abbrev pub failed : Text → W → Text → Outcome (Replied W)
  failed response w e = returned (record {
    world = w;
    sent = tts_start_command response ∷ tts_end_command response [] ∷ [];
    result = err e;
  })

  unfoldable after_serve : Text → W × Result Text (Text × (W → W)) → Outcome (Replied W)
  after_serve response (w, err e) = failed response w e
  after_serve response (w, ok (url, cleanup)) = returned (record {
    world = w;
    sent = tts_start_command response ∷ tts_end_command response url ∷ [];
    result = ok cleanup;
  })

  -- `p.server.ServeWAV`: the method of a nil interface panics.
  unfoldable serve : Option (WavServer W) → Text → Text → W → Outcome (Replied W)
  unfolding after_serve
  serve none response path w = panicked
  serve (some server) response path w = after_serve response (server.serve_wav path w)

  unfoldable pub after_save :
      Option (WavServer W) → Text → W × Result Text Text → Outcome (Replied W)
  unfolding serve
  after_save server response (w, err e) = failed response w e
  after_save server response (w, ok path) = serve server response path w

  unfoldable pub after_synthesize :
      Option (WavServer W) → Text → W × Result Text Bytes → Outcome (Replied W)
  unfolding after_save
  after_synthesize server response (w, err e) = failed response w e
  after_synthesize server response (w, ok pcm) = after_save server response (s.save_wav_file pcm w)

  -- ReplyPhase.Run
  unfoldable pub run : Option (WavServer W) → Text → W → Outcome (Replied W)
  unfolding after_synthesize
  run server response w = after_synthesize server response (s.synthesize response w)
