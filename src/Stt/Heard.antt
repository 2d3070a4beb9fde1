-- ===== src/Stt/Heard.antt =====
-- The recognizer's side of a session: the transcriber's events on the wire, and the transcript that comes
-- back, from what internal/stt/wyoming.go writes and Recv makes of what it reads.
use ai_assistant_driver.Common.{
  ℕ, ◌≡◌, refl, ap, ◌∙◌, Bool, false, Option, none, some, List, [], ◌∷◌, ◌++◌, length,
  if◌then◌else◌, Text, text_eq, Bytes, codes, Result, ok, err, arith,
}
use ai_assistant_driver.Common.Int.{pos}
use ai_assistant_driver.Vad.Arithmetic.{Float}
use ai_assistant_driver.Vad.{Detector}
use ai_assistant_driver.Stt.{
  WireEvent, transcribe, audio_start, audio_chunk, audio_stop, SttTranscriber, Reading, unread,
  unparsed, other_type, transcript, connect, recv_on, recv, audio_sample_rate, audio_bit_depth,
  audio_channels,
}
use ai_assistant_driver.Stt.Session.{session, opening, chunks, send_all, send_all_log}
use ai_assistant_driver.Wyoming.{Event, Codec, Link, ReadError, read_event, write_event}
use ai_assistant_driver.Wyoming.Framing.{payload_read}
use ai_assistant_driver.Wyoming.Delivery.{read_event-write_event, write_event-marshals}
use ai_assistant_driver.Wyoming.Events.{
  Entries, Structs, transcript_entries, new_transcribe_event, new_audio_start_event,
  new_audio_chunk_event, new_audio_stop_event, get_transcript_data,
}
use ai_assistant_driver.Wyoming.Sequences.{
  write_events, read_events, as_read, read_events-write_events,
}

-- The Wyoming event with its payload, as SendAudio, SendAudioStop and Close make it.
unfoldable pub event_of : WireEvent → Event Entries × Bytes
event_of (transcribe language) = (new_transcribe_event language, [])
event_of (audio_start rate width channels) =
    (new_audio_start_event (pos rate) (pos width) (pos channels), [])
event_of (audio_chunk rate width channels payload) =
    (new_audio_chunk_event (pos rate) (pos width) (pos channels) (pos 0), payload)
event_of audio_stop = (new_audio_stop_event (pos 0), [])

-- The events of a log, without the numbers of their connections.
abbrev pub events_of : List (ℕ × WireEvent) → List (Event Entries × Bytes)
events_of [] = []
events_of ((id, e) ∷ log) = event_of e ∷ events_of log

abbrev chunk_read : Bytes → Event Entries × Option Bytes
chunk_read b = (
  new_audio_chunk_event (pos audio_sample_rate) (pos audio_bit_depth) (pos audio_channels) (pos 0),
  payload_read b,
)

abbrev chunks_read : List Bytes → List (Event Entries × Option Bytes)
chunks_read [] = []
chunks_read (b ∷ bs) = chunk_read b ∷ chunks_read bs

-- What the recognizer reads of a session of chunks.
abbrev pub heard : Text → List Bytes → List (Event Entries × Option Bytes)
heard language bs =
    (new_transcribe_event language, none)
    ∷ (
      new_audio_start_event (pos audio_sample_rate) (pos audio_bit_depth) (pos audio_channels),
      none,
    )
    ∷ chunks_read bs

module _ (codec : Codec Entries) where
  as_read-chunks :
      (id : ℕ) (bs : List Bytes) → as_read codec (events_of (chunks id bs)) ≡ chunks_read bs
  unfolding event_of
  as_read-chunks id [] = refl
  as_read-chunks id (b ∷ bs) = ap (λ es. chunk_read b ∷ es) (as_read-chunks id bs)

  as_read-heard :
      (id : ℕ) (language : Text) (bs : List Bytes)
      → as_read codec (events_of (opening id language ++ chunks id bs)) ≡ heard language bs
  unfolding event_of
  as_read-heard id language bs =
      ap
        (λ es.
          (new_transcribe_event language, none)
          ∷ (
            new_audio_start_event (pos audio_sample_rate) (pos audio_bit_depth)
                (pos audio_channels),
            none,
          )
          ∷ es)
        (as_read-chunks id bs)

  module _ (F : Float) where
    open F use {Num}

    -- A transcriber without a client is sent chunks of audio over a network that works. If the events
    -- that it logs are written to a link with no error, the recognizer at the other end reads the
    -- request, the start of the audio and the chunks, in order and with their bytes.
    pub read_events-send_all :
        (b : Bytes) (bs : List Bytes) (next : ℕ) (language : Text) (d : Detector Num) (rest : Bytes)
        (link link' : Link)
        → let log = (send_all F (b ∷ bs) (session none false language d [] next [])).network.log in
          write_events codec (events_of log) link ≡ (link', none)
          → (f : Bytes) × (link'.sent ≡ link.sent ++ f)
            × (read_events codec (length (events_of log)) (f ++ rest)
                ≡ ok (heard language (b ∷ bs), rest))
    read_events-send_all b bs next language d rest link link' wrote =
        let log = (send_all F (b ∷ bs) (session none false language d [] next [])).network.log in
        let (f, sent, read) =
          read_events-write_events codec (events_of log) rest link link' wrote in
        let logged : log ≡ opening next language ++ chunks next (b ∷ bs) =
          send_all_log F b bs next language d [] in
        (
          f,
          sent,
          read
              ∙ ap (λ es. ok (es, rest))
                  (ap (λ l. as_read codec (events_of l)) logged
                    ∙ as_read-heard next language (b ∷ bs)),
        )

  module _ (structs : Structs codec) where
    -- What Recv makes of a read.
    unfoldable reading_of : Result ReadError (Event Entries × Option Bytes × Bytes) → Reading
    reading_of (err e) = unread
    reading_of (ok (e, payload, rest)) =
        if text_eq e.type (codes "transcript")
        then (elim (get_transcript_data structs e) [
          | err failed ↦ unparsed
          | ok d ↦ transcript d.text d.final
        ])
        else other_type

    abbrev transcript_event : Text → Bool → Event Entries
    transcript_event words final = record {
      type = codes "transcript";
      json = transcript_entries words final;
    }

    reading_of-transcript :
        (words : Text) (final : Bool) (b rest : Bytes) (payload : Option Bytes)
        → codec.marshal_data (transcript_entries words final) ≡ some b
        → reading_of (ok (transcript_event words final, payload, rest)) ≡ transcript words final
    unfolding reading_of get_transcript_data
    reading_of-transcript words final b rest payload marshalled =
        rw (reading_of, marshalled) (rw (structs.reads_transcript words final b marshalled) refl)

    recv-transcript :
        {N : Type 0} (t : SttTranscriber N) (id : ℕ) (words : Text) (final : Bool)
        → t.closed ≡ false
        → t.client ≡ some id
        → recv (transcript words final) t ≡ (t, ok (some (words, final)))
    unfolding recv connect recv_on
    recv-transcript t id words final unclosed connected = ground arith

    -- A transcript that the recognizer writes with no error comes out of Recv, on a transcriber that is
    -- not closed and has a connection, with its text and whether it is final.
    recv-write_event :
        {N : Type 0} (t : SttTranscriber N) (id : ℕ) (words : Text) (final : Bool) (rest : Bytes)
        (link link' : Link)
        → t.closed ≡ false
        → t.client ≡ some id
        → write_event codec (transcript_event words final) [] link ≡ (link', none)
        → (f : Bytes) × (link'.sent ≡ link.sent ++ f)
          × (recv (reading_of (read_event codec (f ++ rest))) t ≡ (t, ok (some (words, final))))
    recv-write_event t id words final rest link link' unclosed connected wrote =
        let (b, marshalled) =
          write_event-marshals codec (transcript_event words final) [] link link' wrote in
        let (f, sent, read) =
          read_event-write_event codec (transcript_event words final) [] rest link link' wrote in
        (
          f,
          sent,
          ap (λ r. recv (reading_of r) t) read
              ∙ ap (λ r. recv r t) (reading_of-transcript words final b rest none marshalled)
              ∙ recv-transcript t id words final unclosed connected,
        )
