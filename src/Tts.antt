-- ===== src/Tts.antt =====
-- internal/tts/wyoming.go: the speech synthesizer behind the Wyoming protocol.
pub mod Wav
pub mod Playing
pub mod Spoken
pub mod Header
pub mod Converted
pub mod Files
pub mod Encoded
pub mod Cleaned
mod Tests
use ai_assistant_driver.Common.{
  ℕ, zero, suc, Bool, true, false, Option, none, some, List, [], ◌∷◌, ◌++◌, ◌==◌, is_nil,
  if◌then◌else◌, Text, Bytes, codes, Result, ok, err,
}
use ai_assistant_driver.Common.Int.{ℤ, pos, is_zero}
use ai_assistant_driver.Config.{ConversationalConfig}

pub record WyomingSynthesizer : Type 0 where
  pub host : Text
  pub port : ℤ
  pub language : Text

abbrev first_set : Text → Text → Text → Text
first_set a b default = if is_nil a then (if is_nil b then default else b) else a

unfoldable pub new_synthesizer : ConversationalConfig → WyomingSynthesizer
new_synthesizer cfg = record {
  host = first_set cfg.synthesizer_host cfg.host (codes "localhost");
  port = if is_zero cfg.synthesizer_port then pos 10200 else cfg.synthesizer_port;
  language = first_set cfg.synthesizer_language cfg.language (codes "en");
}

-- An event of Piper: whether the data of an audio-start parses, and the payload of a chunk.
pub data PiperEvent : Type 0 where
  audio_start : (parses : Bool) → PiperEvent
  audio_chunk : (payload : Option Bytes) → PiperEvent
  audio_stop synthesize_stopped other : PiperEvent

pub data SynthesizeError : Type 0 where
  connect_failed send_failed read_failed parse_failed : SynthesizeError

abbrev pub payload_bytes : Option Bytes → Bytes
payload_bytes none = []
payload_bytes (some b) = b

-- The loop of Synthesize over the events that can be read; after them reading fails.
unfoldable pub read_audio : List PiperEvent → Bytes → Result SynthesizeError Bytes
read_audio [] audio = err read_failed
read_audio (audio_start false ∷ events) audio = err parse_failed
read_audio (audio_start true ∷ events) audio = read_audio events audio
read_audio (audio_chunk payload ∷ events) audio = read_audio events (audio ++ payload_bytes payload)
read_audio (audio_stop ∷ events) audio = ok audio
read_audio (synthesize_stopped ∷ events) audio = ok audio
read_audio (other ∷ events) audio = read_audio events audio

-- Synthesize, given whether the connection and the request work.
unfoldable pub synthesize : Bool → Bool → List PiperEvent → Result SynthesizeError Bytes
unfolding read_audio
synthesize dials sends events =
    if dials then (if sends then read_audio events [] else err send_failed) else err connect_failed
