-- ===== src/Wyoming/Events.antt =====
-- internal/wyoming/event.go: the events that the program makes, and how their data is read. The data of
-- an event is a map, here the list of its entries. encoding/json on the data and into the structs is a
-- parameter; of the structs it is only used that it reads back what a map with just their keys says.
use ai_assistant_driver.Common.{
  ◌≡◌, Bool, Option, some, List, [], ◌∷◌, Text, Bytes, codes, Result, ◌>>=◌,
}
use ai_assistant_driver.Common.Int.{ℤ}
use ai_assistant_driver.Wyoming.{Event, Codec, or_fail}

-- The values that the program puts into such a map.
pub data Datum : Type 0 where
  number : ℤ → Datum
  text : Text → Datum
  truth : Bool → Datum

abbrev pub Entries : Type 0
Entries = List (Text × Datum)

pub record AudioStartData : Type 0 where
  pub rate : ℤ
  pub width : ℤ
  pub channels : ℤ

pub record TranscriptData : Type 0 where
  pub text : Text
  pub final : Bool

-- SynthesizeData without the voice, which the program never sets.
pub record SynthesizeData : Type 0 where
  pub text : Text

abbrev pub format : ℤ → ℤ → ℤ → Entries
format rate width channels =
    (codes "rate", number rate)
    ∷ (codes "width", number width)
    ∷ (codes "channels", number channels)
    ∷ []

abbrev pub transcript_entries : Text → Bool → Entries
transcript_entries t final = (codes "text", Datum.text t) ∷ (codes "final", truth final) ∷ []

-- json.Unmarshal into the three structs.
pub record Structs (codec : Codec Entries) : Type 0 where
  pub audio_start_data : Bytes → Option AudioStartData
  pub transcript_data : Bytes → Option TranscriptData
  pub synthesize_data : Bytes → Option SynthesizeData
  pub reads_audio_start :
      (rate width channels : ℤ) (b : Bytes)
      → codec.marshal_data (format rate width channels) ≡ some b
      → audio_start_data b ≡ some (record { rate = rate; width = width; channels = channels })
  pub reads_transcript :
      (t : Text) (final : Bool) (b : Bytes)
      → codec.marshal_data (transcript_entries t final) ≡ some b
      → transcript_data b ≡ some (record { text = t; final = final })
  pub reads_synthesize :
      (t : Text) (b : Bytes)
      → codec.marshal_data ((codes "text", Datum.text t) ∷ []) ≡ some b
      → synthesize_data b ≡ some (record { text = t })

unfoldable pub new_audio_start_event : ℤ → ℤ → ℤ → Event Entries
new_audio_start_event rate width channels = record {
  type = codes "audio-start";
  json = format rate width channels;
}

-- Without the payload length, which WriteEvent takes from the payload itself.
unfoldable pub new_audio_chunk_event : ℤ → ℤ → ℤ → ℤ → Event Entries
new_audio_chunk_event rate width channels timestamp = record {
  type = codes "audio-chunk";
  json =
      (codes "rate", number rate)
      ∷ (codes "width", number width)
      ∷ (codes "channels", number channels)
      ∷ (codes "timestamp", number timestamp)
      ∷ [];
}

unfoldable pub new_audio_stop_event : ℤ → Event Entries
new_audio_stop_event timestamp = record {
  type = codes "audio-stop";
  json = (codes "timestamp", number timestamp) ∷ [];
}

unfoldable pub new_transcribe_event : Text → Event Entries
new_transcribe_event language = record {
  type = codes "transcribe";
  json = (codes "language", text language) ∷ [];
}

unfoldable new_synthesize_event : Text → Event Entries
new_synthesize_event t = record {
  type = codes "synthesize";
  json = (codes "text", Datum.text t) ∷ [];
}

pub data DataError : Type 0 where
  not_marshalled not_unmarshalled : DataError

-- The three readers: the data as JSON, and that into a struct.
abbrev pub read_struct :
    {A : Type 0} → Codec Entries → (Bytes → Option A) → Event Entries → Result DataError A
read_struct codec unmarshal e = do
  b ← or_fail not_marshalled (codec.marshal_data e.json)
  or_fail not_unmarshalled (unmarshal b)

module _ {codec : Codec Entries} (structs : Structs codec) where
  unfoldable pub get_audio_start_data : Event Entries → Result DataError AudioStartData
  get_audio_start_data e = read_struct codec structs.audio_start_data e

  unfoldable pub get_transcript_data : Event Entries → Result DataError TranscriptData
  get_transcript_data e = read_struct codec structs.transcript_data e

  unfoldable get_synthesize_data : Event Entries → Result DataError SynthesizeData
  get_synthesize_data e = read_struct codec structs.synthesize_data e
