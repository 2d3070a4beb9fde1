-- ===== src/Sessions.antt =====
-- internal/controller over internal/stt: the controller with the transcriber of stt.NewTranscriber, whose
-- state is a part of the world that the services share.
pub mod Logged
pub mod Listening
pub mod Device
mod Tests
use ai_assistant_driver.Common.{Bool, Option, none, some, Text, Result, ok, err}
use ai_assistant_driver.Vad.Arithmetic.{Float}
use ai_assistant_driver.Stt.{
  SttTranscriber, SttError, RecvError, Reading, send_audio, send_audio_stop, recv, close,
  reset_transcriber, reset_vad, silence_detected,
}
use ai_assistant_driver.Llm.{ToolExecutor}
use ai_assistant_driver.Phases.{Services}
use ai_assistant_driver.Controller.{Transcriber, Config}

-- The texts of the errors, and what the recognizer answers next.
pub record Recognizer (V : Type 0) : Type 0 where
  pub send_text : SttError → Text
  pub recv_text : RecvError → Text
  pub answer : V → V × Reading

abbrev as_text : (SttError → Text) → Option SttError → Option Text
as_text text none = none
as_text text (some e) = some (text e)

abbrev as_transcript :
    (RecvError → Text) → Result RecvError (Option (Text × Bool)) → Result Text (Option Text)
as_transcript text (err e) = err (text e)
as_transcript text (ok none) = ok none
as_transcript text (ok (some (words, final))) = ok (some words)

abbrev pub World : Float → Type 0 → Type 0
World F V = SttTranscriber F.Num × V

module _ (F : Float) {V : Type 0} where
  -- The methods of STTTranscriber that the controller calls.
  abbrev pub transcriber_of : Recognizer V → Transcriber (World F V)
  transcriber_of r = record {
    send_audio =
        λ b w. let (t, failed) = send_audio F b w.0 in ((t, w.1), as_text r.send_text failed);
    send_audio_stop =
        λ w. let (t, failed) = send_audio_stop F w.0 in ((t, w.1), as_text r.send_text failed);
    recv = λ w.
        let (v, reading) = r.answer w.1 in
        let (t, received) = recv reading w.0 in ((t, v), as_transcript r.recv_text received);
    close = λ w. ((close F w.0, w.1), none);
    reset = λ w. (reset_transcriber F w.0, w.1);
    reset_vad = λ w. (reset_vad F w.0, w.1);
    silence_detected = λ w. let (t, ended) = silence_detected F w.0 in ((t, w.1), ended);
  }

  abbrev pub config_with :
      Recognizer V → Services (World F V) → Bool → ToolExecutor (World F V) → Config (World F V)
  config_with r services has_history executor = record {
    stt = transcriber_of r;
    services = services;
    has_history = has_history;
    executor = executor;
  }
