-- ===== src/Tts/Playing.antt =====
-- What Synthesize makes of the events it reads.
use ai_assistant_driver.Common.{
  ◌≡◌, sym, ap, ◌∙◌, Bool, true, false, List, [], ◌∷◌, ◌++◌, append_assoc, append-nil, All, Bytes,
  ok, err,
}
use ai_assistant_driver.Tts.{
  PiperEvent, audio_start, audio_chunk, audio_stop, synthesize_stopped, other, read_failed,
  parse_failed, payload_bytes, read_audio, synthesize,
}

-- The events that leave the loop reading.
unfoldable pub goes_on : PiperEvent → Bool
goes_on (audio_start parses) = parses
goes_on (audio_chunk payload) = true
goes_on audio_stop = false
goes_on synthesize_stopped = false
goes_on other = true

unfoldable pub played : List PiperEvent → Bytes
played [] = []
played (audio_chunk payload ∷ events) = payload_bytes payload ++ played events
played (_ ∷ events) = played events

read_audio-append :
    (before after : List PiperEvent) (audio : Bytes)
    → All (λ e. goes_on e ≡ true) before
    → read_audio (before ++ after) audio ≡ read_audio after (audio ++ played before)
unfolding read_audio goes_on played
read_audio-append [] after audio going = ap (read_audio after) (sym (append-nil audio))
read_audio-append (audio_start true ∷ before) after audio (g, going) =
    read_audio-append before after audio going
read_audio-append (audio_start false ∷ before) after audio (g, going) = cc
read_audio-append (audio_chunk payload ∷ before) after audio (g, going) =
    read_audio-append before after (audio ++ payload_bytes payload) going
    ∙ ap (read_audio after) (append_assoc audio (payload_bytes payload) (played before))
read_audio-append (audio_stop ∷ before) after audio (g, going) = cc
read_audio-append (synthesize_stopped ∷ before) after audio (g, going) = cc
read_audio-append (other ∷ before) after audio (g, going) =
    read_audio-append before after audio going

-- Where the connection and the request work, the audio is the payloads of the chunks before the
-- event that ends it, joined in order, whatever other events lie between; an audio-start that does
-- not parse, or the end of the stream without an ending event, is an error.
pub synthesize_played :
    (before after : List PiperEvent)
    → All (λ e. goes_on e ≡ true) before
    → (synthesize true true (before ++ audio_stop ∷ after) ≡ ok (played before))
      × (synthesize true true (before ++ synthesize_stopped ∷ after) ≡ ok (played before))
      × (synthesize true true (before ++ audio_start false ∷ after) ≡ err parse_failed)
      × (synthesize true true before ≡ err read_failed)
unfolding synthesize read_audio
synthesize_played before after going = (
  read_audio-append before (audio_stop ∷ after) [] going,
  read_audio-append before (synthesize_stopped ∷ after) [] going,
  read_audio-append before (audio_start false ∷ after) [] going,
  ap (λ es. read_audio es []) (sym (append-nil before)) ∙ read_audio-append before [] [] going,
)
