-- ===== src/Stt.antt =====
-- internal/stt/wyoming.go: the speech recognizer behind the Wyoming protocol.
-- The network answers each dial and each write from a list, and works where the list has ended. The
-- log has every event that was written whole, with the number of the connection it went to.

pub mod Session
pub mod Closing
pub mod Heard
mod Tests
use ai_assistant_driver.Common.{
  ℕ, suc, ◌+◌, Bool, true, false, ◌&&◌, ◌||◌, not, Option, none, some, List, [], ◌∷◌, ◌++◌,
  if◌then◌else◌, is_nil, length, ◌==◌, Text, Bytes, codes, Result, ok, err, text_eq,
}
use ai_assistant_driver.Vad.Arithmetic.{Float}
use ai_assistant_driver.Vad.{Detector, process_audio, reset, take_speech_ended}

-- The Wyoming events that the transcriber writes.
pub data WireEvent : Type 0 where
  transcribe : (language : Text) → WireEvent
  audio_start : (rate width channels : ℕ) → WireEvent
  audio_chunk : (rate width channels : ℕ) (payload : Bytes) → WireEvent
  audio_stop : WireEvent

pub record Network : Type 0 where
  pub dials : List Bool
  pub writes : List Bool
  pub next_connection : ℕ
  pub log : List (ℕ × WireEvent)

-- `client` is the number of the connection; the detector is never nil.
pub record SttTranscriber (N : Type 0) : Type 0 where
  pub client : Option ℕ
  pub language : Text
  pub vad_detector : Detector N
  pub closed : Bool
  pub audio_sent : Bool
  pub transcribe_sent : Bool
  pub network : Network

pub data SttError : Type 0 where
  transcriber_closed connect_failed transcribe_failed : SttError
  audio_start_failed audio_chunk_failed audio_stop_failed not_connected : SttError

abbrev pub audio_sample_rate : ℕ
audio_sample_rate = 16000

abbrev pub audio_bit_depth : ℕ
audio_bit_depth = 2

abbrev pub audio_channels : ℕ
audio_channels = 1

abbrev pub start_event : WireEvent
start_event = audio_start audio_sample_rate audio_bit_depth audio_channels

abbrev pub chunk_event : Bytes → WireEvent
chunk_event b = audio_chunk audio_sample_rate audio_bit_depth audio_channels b

-- NewTranscriber's fallback for an empty language; host and port only go into the dial.
unfoldable pub language_or_default : Text → Text
language_or_default language = if is_nil language then codes "en" else language

-- wyoming.NewClient
unfoldable dial : Network → Network × Option ℕ
dial net = elim net.dials [
  | [] ↦ (record net { next_connection = net.next_connection + 1 }, some net.next_connection)
  | false ∷ rest ↦ (record net { dials = rest }, none)
  | true ∷ rest ↦ (
    record net { dials = rest; next_connection = net.next_connection + 1 },
    some net.next_connection,
  )
]

-- WriteEvent on the connection, and whether it worked.
unfoldable pub write_event : ℕ → WireEvent → Network → Network × Bool
write_event id e net = elim net.writes [
  | [] ↦ (record net { log = net.log ++ (id, e) ∷ [] }, true)
  | false ∷ rest ↦ (record net { writes = rest }, false)
  | true ∷ rest ↦ (record net { writes = rest; log = net.log ++ (id, e) ∷ [] }, true)
]

module _ {N : Type 0} where
  -- connect, which does nothing while there is a client.
  unfoldable pub connect : SttTranscriber N → SttTranscriber N × Option ℕ
  unfolding dial
  connect t = elim t.client [
    | some id ↦ (t, some id)
    | none ↦
        let (net, found) = dial t.network in (record t { client = found; network = net }, found)
  ]

  -- A write of SendAudio: if it fails the client is dropped.
  unfoldable write_or_drop : ℕ → WireEvent → SttTranscriber N → SttTranscriber N × Bool
  unfolding write_event
  write_or_drop id e t =
      let (net, works) = write_event id e t.network in
      if works
      then (record t { network = net }, true)
      else (record t { network = net; client = none }, false)

  -- An event that is sent once; what to set when it was.
  unfoldable send_once :
      Bool
      → ℕ
      → WireEvent
      → (SttTranscriber N → SttTranscriber N)
      → SttTranscriber N
      → SttTranscriber N × Bool
  unfolding write_or_drop
  send_once true id e mark t = (t, true)
  send_once false id e mark t =
      let (t', works) = write_or_drop id e t in if works then (mark t', true) else (t', false)

  abbrev mark_transcribe : SttTranscriber N → SttTranscriber N
  mark_transcribe t = record t { transcribe_sent = true }

  abbrev mark_audio : SttTranscriber N → SttTranscriber N
  mark_audio t = record t { audio_sent = true }

module _ (F : Float) where
  open F use {Num}

  -- SendAudio once there is a connection.
  unfoldable send_audio_on : ℕ → Bytes → SttTranscriber Num → SttTranscriber Num × Option SttError
  unfolding send_once
  send_audio_on id audio t =
      let (t1, introduced) =
        send_once t.transcribe_sent id (transcribe t.language) mark_transcribe t in
      if introduced
      then (let (t2, started) = send_once t1.audio_sent id start_event mark_audio t1 in
          if started
          then (let (t3, works) = write_or_drop id (chunk_event audio) t2 in
              if works
              then (record t3 { vad_detector = (process_audio F audio t3.vad_detector).0 }, none)
              else (t3, some audio_chunk_failed))
          else (t2, some audio_start_failed))
      else (t1, some transcribe_failed)

  unfoldable pub send_audio : Bytes → SttTranscriber Num → SttTranscriber Num × Option SttError
  unfolding send_audio_on connect
  send_audio audio t =
      if t.closed
      then (t, some transcriber_closed)
      else (let (t', connected) = connect t in
          elim connected [ none ↦ (t', some connect_failed) | some id ↦ send_audio_on id audio t' ])

  unfoldable pub send_audio_stop : SttTranscriber Num → SttTranscriber Num × Option SttError
  send_audio_stop t = elim t.client [
    | none ↦ (t, some not_connected)
    | some id ↦
        if t.closed
        then (t, some not_connected)
        else if t.audio_sent
        then (let (net, works) = write_event id audio_stop t.network in
            (record t { network = net }, if works then none else some audio_stop_failed))
        else (t, none)
  ]

  unfoldable pub close : SttTranscriber Num → SttTranscriber Num
  close t = if t.closed then t else (elim t.client [
    | none ↦ record t { closed = true }
    | some id ↦ record t {
      closed = true;
      client = none;
      network = if t.audio_sent then (write_event id audio_stop t.network).0 else t.network;
    }
  ])

  unfoldable pub reset_transcriber : SttTranscriber Num → SttTranscriber Num
  reset_transcriber t = record t {
    closed = false;
    audio_sent = false;
    transcribe_sent = false;
    client = none;
    vad_detector = reset F t.vad_detector;
  }

  unfoldable pub silence_detected : SttTranscriber Num → SttTranscriber Num × Bool
  silence_detected t =
      let (d, ended) = take_speech_ended t.vad_detector in (record t { vad_detector = d }, ended)

  unfoldable pub reset_vad : SttTranscriber Num → SttTranscriber Num
  reset_vad t = record t { vad_detector = reset F t.vad_detector }

-- What ReadEventWithTimeout gives to Recv: an error, a transcript event that parses or not, or an
-- event of another type.
pub data Reading : Type 0 where
  unread unparsed other_type : Reading
  transcript : (text : Text) (final : Bool) → Reading

pub data RecvError : Type 0 where
  recv_closed recv_not_connected read_failed parse_failed : RecvError

module _ {N : Type 0} where
  -- Recv; `none` is the nil transcript of an event that is not handled.
  unfoldable pub recv_on :
      Reading → SttTranscriber N → SttTranscriber N × Result RecvError (Option (Text × Bool))
  recv_on unread t = (record t { client = none }, err read_failed)
  recv_on unparsed t = (t, err parse_failed)
  recv_on other_type t = (t, ok none)
  recv_on (transcript text final) t = (t, ok (some (text, final)))

  unfoldable pub recv :
      Reading → SttTranscriber N → SttTranscriber N × Result RecvError (Option (Text × Bool))
  unfolding connect recv_on
  recv reading t =
      if t.closed
      then (t, err recv_closed)
      else (let (t', connected) = connect t in
          elim connected [ none ↦ (t', err recv_not_connected) | some id ↦ recv_on reading t' ])
