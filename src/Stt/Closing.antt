-- ===== src/Stt/Closing.antt =====
-- How the controller ends a session: SendAudioStop, Recv and Close.
use ai_assistant_driver.Common.{
  ℕ, ◌≡◌, refl, true, false, none, some, List, [], ◌∷◌, ◌++◌, append_assoc, arith, Text, Bytes, err,
}
use ai_assistant_driver.Vad.Arithmetic.{Float}
use ai_assistant_driver.Vad.{Detector}
use ai_assistant_driver.Stt.{
  WireEvent, audio_stop, write_event, SttTranscriber, transcriber_closed, send_audio,
  send_audio_stop, close, Reading, unread, recv, recv_closed,
}
use ai_assistant_driver.Stt.Session.{session}

module _ (F : Float) where
  open F use {Num}

  -- Over a network that works, the sequence of the controller writes the end of the audio twice,
  -- unless the answer could not be read.
  stop-recv-close :
      (reading : Reading) (id next : ℕ) (language : Text) (d : Detector Num)
      (log : List (ℕ × WireEvent))
      → let t = (send_audio_stop F (session (some id) true language d [] next log)).0 in
        (close F (recv reading t).0).network.log
        ≡ log ++ (elim reading [
          | unread ↦ (id, audio_stop) ∷ []
          | _ ↦ (id, audio_stop) ∷ (id, audio_stop) ∷ []
        ])
  unfolding send_audio_stop recv close write_event
  stop-recv-close unread id next language d log = refl
  stop-recv-close _ id next language d log =
      append_assoc log ((id, audio_stop) ∷ []) ((id, audio_stop) ∷ [])

  closed_refuses :
      (t : SttTranscriber Num) (b : Bytes) (reading : Reading)
      → t.closed ≡ true
      → (send_audio F b t ≡ (t, some transcriber_closed))
        × (recv reading t ≡ (t, err recv_closed))
        × (close F t ≡ t)
  unfolding close send_audio recv
  closed_refuses t b reading h = (simp (h, send_audio), simp (h, recv), simp (h, close))

  closes :
      (t : SttTranscriber Num)
      → t.closed ≡ false
      → ((close F t).closed ≡ true) × ((close F t).client ≡ none)
  unfolding close
  closes t h = ground arith

  -- Once an open transcriber is closed its connection is gone, SendAudio and Recv are refused and
  -- leave it as it is, and closing it again changes nothing.
  close_refuses :
      (t : SttTranscriber Num) (b : Bytes) (reading : Reading)
      → t.closed ≡ false
      → let t' = close F t in
        (t'.client ≡ none)
        × (send_audio F b t' ≡ (t', some transcriber_closed))
        × (recv reading t' ≡ (t', err recv_closed))
        × (close F t' ≡ t')
  close_refuses t b reading h =
      let (now_closed, gone) = closes t h in
      let (no_send, no_recv, again) = closed_refuses (close F t) b reading now_closed in
      (gone, no_send, no_recv, again)
