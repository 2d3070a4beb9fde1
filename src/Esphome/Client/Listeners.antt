-- ===== src/Esphome/Client/Listeners.antt =====
-- internal/esphome/client.go: the goroutines of handleMessages beside the reconnection handler, which
-- takes the connection away from the client when the read loop has ended, and beside Close. In every
-- round handleMessages asks the client's connection for its channel; without a connection that is a nil
-- dereference, which ends the program, as does a send on a channel that Close has closed.
use ai_assistant_driver.Common.{
  ℕ, suc, ◌<◌, ◌≡◌, Bool, true, false, not, ◌&&◌, ◌||◌, List, [], ◌∷◌, ◌++◌, ◌==◌, length,
  if◌then◌else◌, Text, arith, ap, ◌∙◌,
}
use ai_assistant_driver.Esphome.Client.{
  Client, Incoming, voice_assistant_request, voice_assistant_event, voice_assistant_audio,
  assistant_response, handle_message, handle_voice_assistant_request, handle_voice_assistant_event,
  handle_voice_assistant_audio, handle_binary_sensor_state, handle_list_entities_binary_sensor,
  handle_list_entities_media_player, handle_media_player_state, send_message, send_event,
}
use ai_assistant_driver.Esphome.Client.Commands.{close_client, connect, connection_lost}

-- Where a goroutine of handleMessages is: before its select, in the select on the channel of a
-- connection, in handleMessage.
pub data Listener : Type 0 where
  at_top : Listener
  waiting : (connection : ℕ) → Listener
  handling : (m : Incoming) → Listener

-- Connections are numbered, and `inbox` is what their message channels hold. `ended` says that Close has
-- ended the client's connection, whose `conn` is then nil.
pub record System : Type 0 where
  pub client : Client
  pub generation : ℕ
  pub ended : Bool
  pub inbox : ℕ → List Incoming
  pub listeners : List Listener
  pub panicked : Bool

abbrev pub put_inbox : ℕ → List Incoming → (ℕ → List Incoming) → ℕ → List Incoming
put_inbox id ms inbox j = if j == id then ms else inbox j

-- handleVoiceAssistantRequest sends a response for a start, over the connection, which it does not
-- test; no other handler uses the connection.
abbrev pub answers_device : Incoming → Bool
answers_device (voice_assistant_request start) = start
answers_device _ = false

-- The messages whose handlers send on the channel of the events or of the audio; the one for a start
-- only after the response.
abbrev pub passes_on : Incoming → Client → Bool
passes_on (voice_assistant_request true) c = (send_message (assistant_response 0 false) c).1
passes_on (voice_assistant_request false) c = true
passes_on (voice_assistant_event type pairs) c = true
passes_on (voice_assistant_audio audio end) c = true
passes_on _ c = false

-- Whether handleMessage panics: without a connection, or on one that has ended, in the response; or on a
-- channel that is closed.
abbrev pub handling_panics : Incoming → System → Bool
handling_panics m s =
    (answers_device m && (not s.client.attached || s.ended))
    || (s.client.closed && passes_on m s.client)

module _ (state_name : ℕ → Text) where
  pub data Step : System → System → Type 0 where
    arrive :
        (s : System) (m : Incoming)
        → s.panicked ≡ false
        → length (s.inbox s.generation) < 10
        → Step s
            (record s { inbox = put_inbox s.generation (s.inbox s.generation ++ m ∷ []) s.inbox })
    lose :
        (s : System) → s.panicked ≡ false → Step s (record s { client = connection_lost s.client })
    close :
        (s : System)
        → s.panicked ≡ false
        → Step s (record s {
          client = close_client s.client;
          ended = if s.client.closed then s.ended else s.client.attached;
        })
    reconnect :
        (s : System)
        → s.panicked ≡ false
        → s.client.connected ≡ false
        → Step s (record s {
          client = (connect true s.client).0;
          ended = false;
          generation = suc s.generation;
          inbox = put_inbox (suc s.generation) [] s.inbox;
          listeners = s.listeners ++ at_top ∷ [];
        })
    look :
        (s : System) (before after : List Listener)
        → s.panicked ≡ false
        → s.listeners ≡ before ++ at_top ∷ after
        → Step s (record s {
          listeners =
              if s.client.attached then before ++ waiting s.generation ∷ after else s.listeners;
          panicked = not s.client.attached;
        })
    receive :
        (s : System) (before after : List Listener) (id : ℕ) (m : Incoming) (rest : List Incoming)
        → s.panicked ≡ false
        → s.listeners ≡ before ++ waiting id ∷ after
        → s.inbox id ≡ m ∷ rest
        → Step s (record s {
          inbox = put_inbox id rest s.inbox;
          listeners = before ++ handling m ∷ after;
        })
    receive_nil :
        (s : System) (before after : List Listener) (id : ℕ)
        → s.panicked ≡ false
        → s.client.closed ≡ true
        → s.listeners ≡ before ++ waiting id ∷ after
        → s.inbox id ≡ []
        → Step s (record s { listeners = before ++ at_top ∷ after })
    return :
        (s : System) (before after : List Listener) (id : ℕ)
        → s.panicked ≡ false
        → s.client.closed ≡ true
        → s.listeners ≡ before ++ waiting id ∷ after
        → Step s (record s { listeners = before ++ after })
    handle :
        (s : System) (before after : List Listener) (m : Incoming)
        → s.panicked ≡ false
        → s.listeners ≡ before ++ handling m ∷ after
        → handling_panics m s ≡ false
        → Step s (record s {
          client = handle_message state_name m s.client;
          listeners = before ++ at_top ∷ after;
        })
    handle_panics :
        (s : System) (before after : List Listener) (m : Incoming)
        → s.panicked ≡ false
        → s.listeners ≡ before ++ handling m ∷ after
        → handling_panics m s ≡ true
        → Step s (record s { panicked = true })

  pub data Steps (s : System) : System → Type 0 where
    here : Steps s s
    next : {t u : System} → Steps s t → Step t u → Steps s u

  -- A client that is not closed and has a connection has not panicked, and only Close has ended one.
  pub record IsSound (s : System) : Type 0 where
    pub calm : s.client.attached ≡ true → s.client.closed ≡ false → s.panicked ≡ false
    pub ended_by_close : s.ended ≡ true → s.client.closed ≡ true

  handle_message-closed :
      (m : Incoming) (c : Client) → (handle_message state_name m c).closed ≡ c.closed
  unfolding handle_message handle_voice_assistant_request handle_voice_assistant_event
      handle_voice_assistant_audio handle_binary_sensor_state handle_list_entities_binary_sensor
      handle_list_entities_media_player handle_media_player_state send_message send_event
  handle_message-closed m c = ground arith

  unpanicked :
      (s : System) → s.panicked ≡ false → (s.ended ≡ true → s.client.closed ≡ true) → IsSound s
  unpanicked s calm e = record { calm = λ _ _. calm; ended_by_close = e }

  not_panicking :
      (s : System) (m : Incoming)
      → IsSound s
      → handling_panics m s ≡ true
      → s.client.attached ≡ true
      → s.client.closed ≡ false
      → true ≡ false
  not_panicking s m v nil there unclosed = ground (arith, v.ended_by_close)

  Step-IsSound : {s t : System} → Step s t → IsSound s → IsSound t
  unfolding connect connection_lost close_client
  Step-IsSound (arrive s m calm room) v = unpanicked _ calm v.ended_by_close
  Step-IsSound (lose s calm) v = unpanicked _ calm v.ended_by_close
  Step-IsSound (close s calm) v = unpanicked _ calm (λ e. ground arith)
  Step-IsSound (reconnect s calm lost) v = unpanicked _ calm (λ e. cc)
  Step-IsSound (look s before after calm top) v = record {
    calm = λ there unclosed. ap not there;
    ended_by_close = v.ended_by_close;
  }
  Step-IsSound (receive s before after id m rest calm waits full) v =
      unpanicked _ calm v.ended_by_close
  Step-IsSound (receive_nil s before after id calm closed waits empty) v =
      unpanicked _ calm v.ended_by_close
  Step-IsSound (return s before after id calm closed waits) v = unpanicked _ calm v.ended_by_close
  Step-IsSound (handle s before after m calm holds fine) v =
      unpanicked _ calm (λ e. handle_message-closed m s.client ∙ v.ended_by_close e)
  Step-IsSound (handle_panics s before after m calm holds nil) v = record {
    calm = λ there unclosed. not_panicking s m v nil there unclosed;
    ended_by_close = v.ended_by_close;
  }

  -- However the steps mix: a client that is not closed and has a connection has not
  -- panicked, and only Close has ended its connection, if that was so before.
  pub Steps-IsSound : {s t : System} → Steps s t → IsSound s → IsSound t
  Steps-IsSound here v = v
  Steps-IsSound (next steps step) v = Step-IsSound step (Steps-IsSound steps v)
