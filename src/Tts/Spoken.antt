-- ===== src/Tts/Spoken.antt =====
-- The synthesizer's side on the wire: what the loop of Synthesize makes of the events that Piper writes.
use ai_assistant_driver.Common.{
  ℕ, zero, suc, ◌+◌, ◌≡◌, refl, sym, ap, ◌∙◌, Bool, true, false, Option, none, some, List, [], ◌∷◌,
  ◌++◌, append-nil, append_assoc, length, All, if◌then◌else◌, text_eq, Bytes, codes, Result, ok,
  err, arith,
}
use ai_assistant_driver.Common.Int.{ℤ, pos}
use ai_assistant_driver.Tts.{
  PiperEvent, audio_start, audio_chunk, audio_stop, synthesize_stopped, other, payload_bytes,
  synthesize,
}
use ai_assistant_driver.Tts.Playing.{goes_on, played, synthesize_played}
use ai_assistant_driver.Wyoming.{Event, Codec, Link, WriteError, read_event, write_event}
use ai_assistant_driver.Wyoming.Framing.{payload_read}
use ai_assistant_driver.Wyoming.Delivery.{read_event-write_event, write_event-marshals}
use ai_assistant_driver.Wyoming.Events.{
  Entries, Structs, format, new_audio_start_event, new_audio_chunk_event, new_audio_stop_event,
  get_audio_start_data,
}
use ai_assistant_driver.Wyoming.Sequences.{write_events, as_read, split_write}

abbrev is_ok : {E A : Type 0} → Result E A → Bool
is_ok (ok a) = true
is_ok (err e) = false

module _ {codec : Codec Entries} (structs : Structs codec) where
  -- The switch over the type of an event.
  unfoldable piper_event : Event Entries → Option Bytes → PiperEvent
  piper_event e payload =
      if text_eq e.type (codes "audio-start")
      then audio_start (is_ok (get_audio_start_data structs e))
      else if text_eq e.type (codes "audio-chunk")
      then audio_chunk payload
      else if text_eq e.type (codes "audio-stop")
      then audio_stop
      else if text_eq e.type (codes "synthesize-stopped")
      then synthesize_stopped
      else other

  -- The events that can be read from what Piper has sent, `n` at most.
  unfoldable pub piper_events : ℕ → Bytes → List PiperEvent
  unfolding piper_event
  piper_events zero stream = []
  piper_events (suc n) stream = elim (read_event codec stream) [
    | err e ↦ []
    | ok (e, payload, rest) ↦ piper_event e payload ∷ piper_events n rest
  ]

  -- What Piper writes for sound in a format: its start, the chunks, and the stop.
  abbrev chunk_events : ℤ → ℤ → ℤ → List Bytes → List (Event Entries × Bytes)
  chunk_events rate width channels [] = (new_audio_stop_event (pos 0), []) ∷ []
  chunk_events rate width channels (b ∷ bs) =
      (new_audio_chunk_event rate width channels (pos 0), b) ∷ chunk_events rate width channels bs

  abbrev pub spoken : ℤ → ℤ → ℤ → List Bytes → List (Event Entries × Bytes)
  spoken rate width channels bs =
      (new_audio_start_event rate width channels, []) ∷ chunk_events rate width channels bs

  abbrev pub joined : List Bytes → Bytes
  joined [] = []
  joined (b ∷ bs) = b ++ joined bs

  abbrev chunks_of : List Bytes → List PiperEvent
  chunks_of [] = []
  chunks_of (b ∷ bs) = audio_chunk (payload_read b) ∷ chunks_of bs

  -- The events that were read, one by one.
  abbrev piper_all : List (Event Entries × Option Bytes) → List PiperEvent
  piper_all [] = []
  piper_all ((e, payload) ∷ es) = piper_event e payload ∷ piper_all es

  payload_bytes_read : (b : Bytes) → payload_bytes (payload_read b) ≡ b
  payload_bytes_read [] = refl
  payload_bytes_read (x ∷ b) = refl

  chunks_of-goes_on : (bs : List Bytes) → All (λ e. goes_on e ≡ true) (chunks_of bs)
  unfolding goes_on
  chunks_of-goes_on [] = tt
  chunks_of-goes_on (b ∷ bs) = (refl, chunks_of-goes_on bs)

  played-chunks_of : (bs : List Bytes) → played (chunks_of bs) ≡ joined bs
  unfolding played
  played-chunks_of [] = refl
  played-chunks_of (b ∷ bs) =
      ap (λ x. x ++ played (chunks_of bs)) (payload_bytes_read b)
      ∙ ap (λ x. b ++ x) (played-chunks_of bs)

  -- A read that takes one round.
  piper_events_more :
      (n : ℕ) (stream rest : Bytes) (e : Event Entries) (payload : Option Bytes)
      → read_event codec stream ≡ ok (e, payload, rest)
      → piper_events (suc n) stream ≡ piper_event e payload ∷ piper_events n rest
  unfolding piper_events
  piper_events_more n stream rest e payload read = rw (piper_events, read) refl

  piper_events-write_events :
      (es : List (Event Entries × Bytes)) (k : ℕ) (rest : Bytes) (link link' : Link)
      → write_events codec es link ≡ (link', none)
      → (f : Bytes) × (link'.sent ≡ link.sent ++ f)
        × (piper_events (length es + k) (f ++ rest)
            ≡ piper_all (as_read codec es) ++ piper_events k rest)
  unfolding write_events
  piper_events-write_events [] k rest link link' wrote =
      let none_more : 0 + k ≡ k = omega arith in
      (
        [],
        ap (λ (r : Link × Option WriteError). r.0.sent) (sym wrote) ∙ sym (append-nil link.sent),
        ap (λ n. piper_events n rest) none_more,
      )
  piper_events-write_events ((e, payload) ∷ es) k rest link link' wrote =
      let one_more : suc (length es) + k ≡ suc (length es + k) = omega arith in
      let (middle, first, later) =
        split_write codec (write_events codec es) (write_event codec e payload link) link' wrote in
      let (g, sent_more, read_more) = piper_events-write_events es k rest middle link' later in
      let (f, sent_one, read_one) =
        read_event-write_event codec e payload (g ++ rest) link middle first in
      (
        f ++ g,
        sent_more ∙ ap (λ s. s ++ g) sent_one ∙ append_assoc link.sent f g,
        ap (λ n. piper_events n ((f ++ g) ++ rest)) one_more
            ∙ ap (piper_events (suc (length es + k))) (append_assoc f g rest)
            ∙ piper_events_more (length es + k) (f ++ (g ++ rest)) (g ++ rest) e
                (payload_read payload) read_one
            ∙ ap (λ ps. piper_event e (payload_read payload) ∷ ps) read_more,
      )

  piper_all-chunk_events :
      (rate width channels : ℤ) (bs : List Bytes)
      → piper_all (as_read codec (chunk_events rate width channels bs))
        ≡ chunks_of bs ++ audio_stop ∷ []
  unfolding piper_event new_audio_chunk_event new_audio_stop_event
  piper_all-chunk_events rate width channels [] = refl
  piper_all-chunk_events rate width channels (b ∷ bs) =
      ap (λ ps. audio_chunk (payload_read b) ∷ ps) (piper_all-chunk_events rate width channels bs)

  piper_event-start :
      (rate width channels : ℤ) (json : Bytes)
      → codec.marshal_data (format rate width channels) ≡ some json
      → piper_event (new_audio_start_event rate width channels) none ≡ audio_start true
  unfolding piper_event new_audio_start_event get_audio_start_data
  piper_event-start rate width channels json marshalled =
      rw (piper_event, marshalled)
        (rw (structs.reads_audio_start rate width channels json marshalled) refl)

  piper_all-spoken :
      (rate width channels : ℤ) (bs : List Bytes) (json : Bytes) (behind : List PiperEvent)
      → codec.marshal_data (format rate width channels) ≡ some json
      → piper_all (as_read codec (spoken rate width channels bs)) ++ behind
        ≡ (audio_start true ∷ chunks_of bs) ++ audio_stop ∷ behind
  piper_all-spoken rate width channels bs json behind marshalled =
      ap (λ p. p ∷ (piper_all (as_read codec (chunk_events rate width channels bs)) ++ behind))
        (piper_event-start rate width channels json marshalled)
      ∙ ap (λ ps. audio_start true ∷ (ps ++ behind)) (piper_all-chunk_events rate width channels bs)
      ∙ ap (λ ps. audio_start true ∷ ps) (append_assoc (chunks_of bs) (audio_stop ∷ []) behind)

  -- Where the connection and the request work, and Piper writes sound in chunks, with its start before
  -- it, the stop behind it and no error, Synthesize gives the chunks joined in order, whatever comes
  -- behind the stop; the format that Piper announces makes no difference.
  pub synthesize-spoken :
      (rate width channels : ℤ) (bs : List Bytes) (k : ℕ) (rest : Bytes) (link link' : Link)
      → write_events codec (spoken rate width channels bs) link ≡ (link', none)
      → (f : Bytes) × (link'.sent ≡ link.sent ++ f)
        × (synthesize true true
              (piper_events (length (spoken rate width channels bs) + k) (f ++ rest))
            ≡ ok (joined bs))
  unfolding write_events goes_on played new_audio_start_event
  synthesize-spoken rate width channels bs k rest link link' wrote =
      let start = new_audio_start_event rate width channels in
      let (middle, first, later) =
        split_write codec (write_events codec (chunk_events rate width channels bs))
          (write_event codec start [] link) link' wrote in
      let (json, marshalled) = write_event-marshals codec start [] link middle first in
      let (f, sent, read) =
        piper_events-write_events (spoken rate width channels bs) k rest link link' wrote in
      (
        f,
        sent,
        ap (synthesize true true)
              (read ∙ piper_all-spoken rate width channels bs json (piper_events k rest) marshalled)
            ∙ (synthesize_played (audio_start true ∷ chunks_of bs) (piper_events k rest)
                (refl, chunks_of-goes_on bs)).0
            ∙ ap ok (played-chunks_of bs),
      )
