-- ===== src/Http/Tests.antt =====
-- Requests at concrete inputs.
use ai_assistant_driver.Common.{ℕ, ◌≡◌, refl, true, none, some, [], ◌∷◌, ◌++◌, codes, arith}
use ai_assistant_driver.Controller.{idle, Controller}
use ai_assistant_driver.Controller.Fixtures.{config, awake}
use ai_assistant_driver.Http.{
  Server, slash, url, get, post, Request, problem, serve_file, audio_prefix, serve_wav, clean_up,
}
use ai_assistant_driver.Http.Handlers.{Decoder, handle_audio, respond}
use ai_assistant_driver.Http.Audio.{handle_audio-serve_wav}
use ai_assistant_driver.Http.Guards.{IsServed, respond-IsServed}

-- A body is its text.
abbrev decoder : Decoder
decoder = record { tts_text = λ b. some b; light_action = λ b. some b }

abbrev server : Server
server = record {
  host = codes "10.0.0.1";
  port = 8080;
  files = [];
  started = true;
  bound_ip = codes "10.0.0.1";
  api_key = [];
  has_controller = true;
  has_synthesizer = true;
  serving = true;
}

abbrev listen : Request
listen = record { method = post; path = codes "/api/listen"; body = none }

abbrev resting : Controller ℕ
resting = record awake { phase = idle }

handle_audio-serve_wav_example :
    let path = codes "data" ++ slash ∷ codes "a.wav" in
    let (s', link) = serve_wav true [] path server in
    let r : Request = record { method = get; path = audio_prefix ++ codes "a.wav"; body = none } in
    (link ≡ some (url server ++ r.path))
    × (handle_audio r s' ≡ serve_file path)
    × (handle_audio r (clean_up path s') ≡ problem 404 (codes "Audio file not found"))
handle_audio-serve_wav_example =
    handle_audio-serve_wav true [] (codes "data") (codes "a.wav") get server (ground arith) refl
      refl

respond-IsServed_example : IsServed resting (respond (config true) decoder listen server resting)
respond-IsServed_example = respond-IsServed (config true) decoder listen server resting
