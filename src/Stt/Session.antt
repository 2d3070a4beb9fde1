-- ===== src/Stt/Session.antt =====
-- What a session writes to the recognizer.
use ai_assistant_driver.Common.{
  ℕ, ◌+◌, ◌≡◌, refl, ◌∙◌, ap, sym, Bool, true, false, Option, none, some, List, [], ◌∷◌, ◌++◌,
  append_assoc, append-nil, Text, Bytes,
}
use ai_assistant_driver.Vad.Arithmetic.{Float}
use ai_assistant_driver.Vad.{Detector, process_audio}
use ai_assistant_driver.Stt.{
  WireEvent, transcribe, SttTranscriber, audio_chunk_failed, start_event, chunk_event, send_audio,
}

-- An open transcriber with a client or none, that has sent the opening events or not, over a
-- network with these answers to writes still to come.
abbrev pub session :
    {N : Type 0}
    → Option ℕ
    → Bool
    → Text
    → Detector N
    → List Bool
    → ℕ
    → List (ℕ × WireEvent)
    → SttTranscriber N
session client opened language d writes next log = record {
  client = client;
  language = language;
  vad_detector = d;
  closed = false;
  audio_sent = opened;
  transcribe_sent = opened;
  network = record { dials = []; writes = writes; next_connection = next; log = log };
}

abbrev pub chunks : ℕ → List Bytes → List (ℕ × WireEvent)
chunks id [] = []
chunks id (b ∷ bs) = (id, chunk_event b) ∷ chunks id bs

abbrev pub opening : ℕ → Text → List (ℕ × WireEvent)
opening id language = (id, transcribe language) ∷ (id, start_event) ∷ []

module _ (F : Float) where
  open F use {Num}

  unfoldable pub send_all : List Bytes → SttTranscriber Num → SttTranscriber Num
  send_all [] t = t
  send_all (b ∷ bs) t = send_all bs (send_audio F b t).0

  pub send_opened :
      (id next : ℕ) (language : Text) (d : Detector Num) (log : List (ℕ × WireEvent)) (b : Bytes)
      → send_audio F b (session (some id) true language d [] next log) ≡ (
        session
            (some id)
            true
            language
            (process_audio F b d).0
            []
            next
            (log ++ (id, chunk_event b) ∷ []),
        none,
      )
  unfolding send_audio
  send_opened id next language d log b = refl

  send_all_opened :
      (bs : List Bytes) (id next : ℕ) (language : Text) (d : Detector Num)
      (log : List (ℕ × WireEvent))
      → (send_all bs (session (some id) true language d [] next log)).network.log
        ≡ log ++ chunks id bs
  unfolding send_all
  send_all_opened [] id next language d log = sym (append-nil log)
  send_all_opened (b ∷ bs) id next language d log =
      ap (λ r. (send_all bs r.0).network.log) (send_opened id next language d log b)
      ∙ send_all_opened bs id next language (process_audio F b d).0
          (log ++ (id, chunk_event b) ∷ [])
      ∙ append_assoc log ((id, chunk_event b) ∷ []) (chunks id bs)

  pub send_unopened :
      (next : ℕ) (language : Text) (d : Detector Num) (log : List (ℕ × WireEvent)) (b : Bytes)
      → send_audio F b (session none false language d [] next log) ≡ (
        session (some next) true language (process_audio F b d).0 [] (next + 1) (
            log
            ++ (next, transcribe language) ∷ []
            ++ (next, start_event) ∷ []
            ++ (next, chunk_event b) ∷ []),
        none,
      )
  unfolding send_audio
  send_unopened next language d log b = refl

  -- Over a network that works, a transcriber without a client that is sent chunks of audio opens one
  -- connection, and writes on it the request, the start of the audio, and the chunks in order.
  pub send_all_log :
      (b : Bytes) (bs : List Bytes) (next : ℕ) (language : Text) (d : Detector Num)
      (log : List (ℕ × WireEvent))
      → (send_all (b ∷ bs) (session none false language d [] next log)).network.log
        ≡ log ++ (opening next language ++ chunks next (b ∷ bs))
  unfolding send_all
  send_all_log b bs next language d log =
      ap (λ r. (send_all bs r.0).network.log) (send_unopened next language d log b)
      ∙ send_all_opened bs next (next + 1) language (process_audio F b d).0 (
          log
          ++ (next, transcribe language) ∷ []
          ++ (next, start_event) ∷ []
          ++ (next, chunk_event b) ∷ [])
      ∙ simp append_assoc

  -- After a chunk that could not be written, the next chunk goes to a new connection, and nothing
  -- comes before it there: neither the request nor the start of the audio is sent again.
  send_audio_orphan :
      (a b : Bytes) (id next : ℕ) (language : Text) (d : Detector Num) (log : List (ℕ × WireEvent))
      → let (t, e) = send_audio F a (session (some id) true language d (false ∷ []) next log) in
        let (t', e') = send_audio F b t in
        (e ≡ some audio_chunk_failed)
        × (e' ≡ none)
        × (t'.network.log ≡ log ++ (next, chunk_event b) ∷ [])
  unfolding send_audio
  send_audio_orphan a b id next language d log = (refl, refl, refl)
