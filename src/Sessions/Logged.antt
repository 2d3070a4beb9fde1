-- ===== src/Sessions/Logged.antt =====
-- What a listening phase writes to the recognizer, by internal/controller/phases.go.
use ai_assistant_driver.Common.{ℕ, ◌≡◌, refl, ap, List, [], ◌∷◌, ◌++◌, append_assoc, Text, Bytes}
use ai_assistant_driver.Stt.{WireEvent, audio_stop, chunk_event}
use ai_assistant_driver.Stt.Session.{opening, chunks}

abbrev pub session_events : ℕ → Text → List Bytes → List (ℕ × WireEvent)
session_events id language bs =
    opening id language ++ (chunks id bs ++ (id, audio_stop) ∷ (id, audio_stop) ∷ [])

chunks-append :
    (id : ℕ) (bs : List Bytes) (last : Bytes)
    → chunks id (bs ++ last ∷ []) ≡ chunks id bs ++ (id, chunk_event last) ∷ []
chunks-append id [] last = refl
chunks-append id (b ∷ bs) last = ap (λ l. (id, chunk_event b) ∷ l) (chunks-append id bs last)

pub logged :
    (id : ℕ) (language : Text) (log : List (ℕ × WireEvent)) (bs : List Bytes) (last : Bytes)
    → (((log ++ (opening id language ++ chunks id bs)) ++ (id, chunk_event last) ∷ [])
          ++ (id, audio_stop) ∷ [])
        ++ (id, audio_stop) ∷ []
      ≡ log ++ session_events id language (bs ++ last ∷ [])
logged id language log bs last = rw (chunks-append id bs last) (simp append_assoc)
