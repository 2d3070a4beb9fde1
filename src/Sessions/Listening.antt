-- ===== src/Sessions/Listening.antt =====
-- The listening phase with the transcriber: from the wake word over the chunks to the transcript.
use ai_assistant_driver.Common.{
  ℕ, ◌+◌, ◌≡◌, refl, ap, sym, append-nil, ◌∙◌, Bool, true, false, none, some, List, [], ◌∷◌, ◌++◌,
  append_assoc, is_nil, Text, Bytes,
}
use ai_assistant_driver.Vad.Arithmetic.{Float}
use ai_assistant_driver.Vad.{Detector, reset, process_audio, take_speech_ended}
use ai_assistant_driver.Stt.{
  WireEvent, audio_stop, SttTranscriber, chunk_event, send_audio, send_audio_stop, recv, recv_on,
  close, reset_vad, silence_detected, transcript, write_event, reset_transcriber, connect,
}
use ai_assistant_driver.Stt.Session.{session, opening, chunks, send_opened, send_unopened}
use ai_assistant_driver.Llm.{ToolExecutor}
use ai_assistant_driver.Phases.{Services, returned, panicked, unfinished}
use ai_assistant_driver.Esphome.Command.{Command, bare, stt_start, vad_end}
use ai_assistant_driver.Esphome.Event.{VoiceAssistantPhase}
use ai_assistant_driver.Controller.{idle, listening, Controller}
use ai_assistant_driver.Controller.Handlers.{
  Event, voice_assistant, audio, Step, handle, run, after_transcript, handle_audio_event,
  handle_voice_assistant_event, handle_listening_start, after_audio, after_recv,
  handle_listening_end,
}
use ai_assistant_driver.Sessions.Logged.{session_events, logged}
use ai_assistant_driver.Sessions.{Recognizer, World, config_with}

abbrev pub wake : Event
wake = voice_assistant (record { phase = VoiceAssistantPhase.listening; error = [] })

abbrev pub chunk : Bytes → Event
chunk b = audio (record { audio = b; end = false })

abbrev pub chunks_of : List Bytes → List Event
chunks_of [] = []
chunks_of (b ∷ bs) = chunk b ∷ chunks_of bs

module _ (F : Float) where
  open F use {Num}

  -- The detector has processed the chunks.
  abbrev pub listened : List Bytes → Detector Num → Detector Num
  listened [] d = d
  listened (b ∷ bs) d = listened bs (process_audio F b d).0

  -- None of the chunks is empty or ends the speech.
  abbrev pub Continue : List Bytes → Detector Num → Type 0
  Continue [] d = Unit {0}
  Continue (b ∷ bs) d =
      (is_nil b ≡ false)
      × ((process_audio F b d).0.speech_ended ≡ false)
      × Continue bs (process_audio F b d).0

  -- The transcriber behind a session: closed, its end of speech taken.
  abbrev pub finished : Text → Detector Num → ℕ → List (ℕ × WireEvent) → SttTranscriber Num
  finished language d next log =
      record (session none true language (record d { speech_ended = false }) [] next log) {
        closed = true;
      }

  module _ {V : Type 0} (r : Recognizer V) (services : Services (World F V)) (has_history : Bool)
      (executor : ToolExecutor (World F V)) (fuel : ℕ) (base : Controller (World F V)) where
    -- The controller in the listening phase, the other fields as they were.
    abbrev pub hearing : List Command → SttTranscriber Num → V → Controller (World F V)
    hearing cmds t v = record base { phase = listening; commands = cmds; world = (t, v) }

    abbrev cfg_handle : Event → Controller (World F V) → Step (World F V)
    cfg_handle = handle (config_with F r services has_history executor) fuel

    audio_continues :
        (b : Bytes) (cmds : List Command) (s s' : SttTranscriber Num) (v : V)
        → is_nil b ≡ false
        → send_audio F b s ≡ (s', none)
        → s'.vad_detector.speech_ended ≡ false
        → cfg_handle (chunk b) (hearing cmds s v) ≡ returned (hearing cmds s' v)
    unfolding handle handle_audio_event after_audio silence_detected take_speech_ended
    audio_continues b cmds s s' v some_audio sent more = rw some_audio (rw sent (rw more refl))

    abbrev run_on : List Event → Controller (World F V) → Step (World F V)
    run_on = run (config_with F r services has_history executor) fuel

    -- The events that follow on what a handler gives.
    abbrev pub then_run : List Event → Step (World F V) → Step (World F V)
    then_run rest o = elim o [
      | returned c ↦ run_on rest c
      | panicked ↦ panicked
      | unfinished ↦ unfinished
    ]

    run_then :
        (e : Event) (rest : List Event) (c : Controller (World F V)) (o : Step (World F V))
        → cfg_handle e c ≡ o
        → run_on (e ∷ rest) c ≡ then_run rest o
    unfolding run
    run_then e rest c o h = ap (then_run rest) h

    run_opened :
        (bs : List Bytes) (rest : List Event) (cmds : List Command) (id next : ℕ) (language : Text)
        (d : Detector Num) (log : List (ℕ × WireEvent)) (v : V)
        → Continue bs d
        → run_on
            (chunks_of bs ++ rest)
            (hearing cmds (session (some id) true language d [] next log) v)
          ≡ run_on rest (
              hearing cmds
                (session (some id) true language (listened bs d) [] next (log ++ chunks id bs))
                v)
    run_opened [] rest cmds id next language d log v more =
        ap (λ l. run_on rest (hearing cmds (session (some id) true language d [] next l) v))
          (sym (append-nil log))
    run_opened (b ∷ bs) rest cmds id next language d log v (some_audio, quiet, more) =
        let d' = (process_audio F b d).0 in
        let log' = log ++ (id, chunk_event b) ∷ [] in
        let s' = session (some id) true language d' [] next log' in
        run_then (chunk b) (chunks_of bs ++ rest) _ (returned (hearing cmds s' v))
          (audio_continues b cmds _ s' v some_audio (send_opened F id next language d log b) quiet)
        ∙ run_opened bs rest cmds id next language d' log' v more
        ∙ ap
            (λ l.
              run_on rest
                (hearing cmds (session (some id) true language (listened bs d') [] next l) v))
            (append_assoc log ((id, chunk_event b) ∷ []) (chunks id bs))

    run_streamed :
        (b : Bytes) (bs : List Bytes) (rest : List Event) (cmds : List Command) (next : ℕ)
        (language : Text) (d : Detector Num) (log : List (ℕ × WireEvent)) (v : V)
        → Continue (b ∷ bs) d
        → run_on
            (chunks_of (b ∷ bs) ++ rest)
            (hearing cmds (session none false language d [] next log) v)
          ≡ run_on rest (
              hearing cmds
                (session
                  (some next)
                  true
                  language
                  (listened (b ∷ bs) d)
                  []
                  (next + 1)
                  (log ++ (opening next language ++ chunks next (b ∷ bs))))
                v)
    run_streamed b bs rest cmds next language d log v (some_audio, quiet, more) =
        let d' = (process_audio F b d).0 in
        let log' = log ++ (opening next language ++ (next, chunk_event b) ∷ []) in
        let s' = session (some next) true language d' [] (next + 1) log' in
        let sent : send_audio F b (session none false language d [] next log) ≡ (s', none) =
          send_unopened F next language d log b
          ∙ ap (λ l. (session (some next) true language d' [] (next + 1) l, none))
              (simp append_assoc) in
        run_then (chunk b) (chunks_of bs ++ rest) _ (returned (hearing cmds s' v))
          (audio_continues b cmds _ s' v some_audio sent quiet)
        ∙ run_opened bs rest cmds next (next + 1) language d' log' v more
        ∙ ap
            (λ l.
              run_on rest (
                hearing cmds (session (some next) true language (listened bs d') [] (next + 1) l)
                  v))
            (append_assoc log (opening next language ++ (next, chunk_event b) ∷ [])
              (chunks next bs))

    -- The transcriber before, and the controller at rest with it.
    abbrev pub at_rest :
        List Command → SttTranscriber Num → ℕ → List (ℕ × WireEvent) → V → Controller (World F V)
    at_rest cmds t next log v =
        let working : SttTranscriber Num = record t {
          network = record { dials = []; writes = []; next_connection = next; log = log };
        } in
        record base { phase = idle; commands = cmds; world = (working, v) }

    wake_resets :
        (cmds : List Command) (t : SttTranscriber Num) (next : ℕ) (log : List (ℕ × WireEvent))
        (v : V)
        → cfg_handle wake (at_rest cmds t next log v)
          ≡ returned (
              hearing
                (cmds ++ bare stt_start ∷ [])
                (session none false t.language (reset F t.vad_detector) [] next log)
                v)
    unfolding handle handle_voice_assistant_event handle_listening_start reset_transcriber reset_vad
        reset
    wake_resets cmds t next log v = refl

    last_chunk :
        (b : Bytes) (cmds : List Command) (id next : ℕ) (language : Text) (d : Detector Num)
        (log : List (ℕ × WireEvent)) (v v' : V) (text : Text) (final : Bool)
        → is_nil b ≡ false
        → (process_audio F b d).0.speech_ended ≡ true
        → r.answer v ≡ (v', transcript text final)
        → cfg_handle (chunk b) (hearing cmds (session (some id) true language d [] next log) v)
          ≡ after_transcript (config_with F r services has_history executor) fuel (some text) (
              hearing
                (cmds ++ bare vad_end ∷ [])
                (finished language (process_audio F b d).0 next (
                  ((log ++ (id, chunk_event b) ∷ []) ++ (id, audio_stop) ∷ [])
                  ++ (id, audio_stop) ∷ []))
                v')
    unfolding handle handle_audio_event after_audio silence_detected take_speech_ended
        handle_listening_end after_recv send_audio_stop recv recv_on close write_event connect
    last_chunk b cmds id next language d log v v' text final some_audio ended answered =
        rw some_audio (rw (send_opened F id next language d log b) (rw ended (rw answered refl)))

    -- From rest, over a network that works: after the wake word and chunks of audio, none of them empty,
    -- of which the last and no other ends the speech, the controller goes on with the transcript that
    -- the recognizer answers. By then the recognizer was sent, on one new connection, the opening, every
    -- chunk in order and the end of the audio, twice; the device the start of the listening and the
    -- end of the speech.
    pub run-listening :
        (b : Bytes) (bs : List Bytes) (last : Bytes) (rest : List Event) (cmds : List Command)
        (t : SttTranscriber Num) (next : ℕ) (log : List (ℕ × WireEvent)) (v v' : V) (text : Text)
        (final : Bool)
        → Continue (b ∷ bs) (reset F t.vad_detector)
        → is_nil last ≡ false
        → (process_audio F last (listened (b ∷ bs) (reset F t.vad_detector))).0.speech_ended ≡ true
        → r.answer v ≡ (v', transcript text final)
        → let d = (process_audio F last (listened (b ∷ bs) (reset F t.vad_detector))).0 in
          let log' = log ++ session_events next t.language ((b ∷ bs) ++ last ∷ []) in
          run_on (wake ∷ (chunks_of (b ∷ bs) ++ chunk last ∷ rest)) (at_rest cmds t next log v)
          ≡ then_run rest (
              after_transcript (config_with F r services has_history executor) fuel (some text) (
                hearing
                  ((cmds ++ bare stt_start ∷ []) ++ bare vad_end ∷ [])
                  (finished t.language d (next + 1) log')
                  v'))
    run-listening b bs last rest cmds t next log v v' text final more some_audio ended answered =
        let d0 = reset F t.vad_detector in
        let d1 = listened (b ∷ bs) d0 in
        let cmds' = cmds ++ bare stt_start ∷ [] in
        let sent = log ++ (opening next t.language ++ chunks next (b ∷ bs)) in
        run_then wake (chunks_of (b ∷ bs) ++ chunk last ∷ rest) _ _ (wake_resets cmds t next log v)
        ∙ run_streamed b bs (chunk last ∷ rest) cmds' next t.language d0 log v more
        ∙ run_then (chunk last) rest _ _ (
            last_chunk last cmds' next (next + 1) t.language d1 sent v v' text final some_audio
              ended answered)
        ∙ ap
            (λ l. then_run rest (
              after_transcript (config_with F r services has_history executor) fuel (some text) (
                hearing (cmds' ++ bare vad_end ∷ [])
                  (finished t.language (process_audio F last d1).0 (next + 1) l) v')))
            (logged next t.language log (b ∷ bs) last)
