-- ===== src/Esphome/Client/Panics.antt =====
-- internal/esphome/client.go: the orders of steps in which the goroutine of handleMessages meets a client
-- whose connection or channels are gone.
use ai_assistant_driver.Common.{
  ℕ, ◌≡◌, refl, true, false, not, List, ◌∷◌, ◌++◌, if◌then◌else◌, Text, arith, ap, ◌∙◌, Bool-cases,
  inl, inr,
}
use ai_assistant_driver.Esphome.Client.{
  Client, Incoming, voice_assistant_request, voice_assistant_event, voice_assistant_audio,
  handle_message, handle_voice_assistant_request, handle_voice_assistant_event,
  handle_voice_assistant_audio, handle_binary_sensor_state, handle_list_entities_binary_sensor,
  handle_list_entities_media_player, handle_media_player_state, send_message, send_event,
}
use ai_assistant_driver.Esphome.Client.Commands.{close_client, connection_lost}
use ai_assistant_driver.Esphome.Client.Listeners.{
  Listener, at_top, waiting, handling, System, put_inbox, passes_on, handling_panics, lose, close,
  look, receive, handle, handle_panics, Steps, here, next,
}

module _ (state_name : ℕ → Text) where
  -- No handler takes the connection from the client or gives it one.
  handle_message-attached :
      (m : Incoming) (c : Client) → (handle_message state_name m c).attached ≡ c.attached
  unfolding handle_message handle_voice_assistant_request handle_voice_assistant_event
      handle_voice_assistant_audio handle_binary_sensor_state handle_list_entities_binary_sensor
      handle_list_entities_media_player handle_media_player_state send_message send_event
  handle_message-attached m c = ground arith

  -- A listener that holds a message when the connection is dropped.
  detached_panics :
      (s : System) (before after : List Listener) (m : Incoming)
      → s.panicked ≡ false
      → s.listeners ≡ before ++ handling m ∷ after
      → s.client.attached ≡ false
      → (t : System) × Steps state_name s t × (t.panicked ≡ true)
  detached_panics s before after m calm holds detached = elim (Bool-cases (handling_panics m s)) [
    | inl nil ↦ (
      record s { panicked = true },
      next here (handle_panics s before after m calm holds nil),
      refl,
    )
    | inr fine ↦
        let handled : System = record s {
          client = handle_message state_name m s.client;
          listeners = before ++ at_top ∷ after;
        } in
        (
          record handled {
            listeners =
                if handled.client.attached
                then before ++ waiting handled.generation ∷ after
                else handled.listeners;
            panicked = not handled.client.attached;
          },
          next (next here (handle s before after m calm holds fine))
              (look handled before after calm refl),
          ap not (handle_message-attached m s.client ∙ detached),
        )
  ]

  Steps-append :
      {s t u : System} → Steps state_name s t → Steps state_name t u → Steps state_name s u
  Steps-append st here = st
  Steps-append st (next tu step) = next (Steps-append st tu) step

  -- If a message is left on the channel of a connection that a listener waits on, whatever it is,
  -- there is an order in which the listener takes it, the connection is lost, and the program panics.
  lost_with_message :
      (s : System) (before after : List Listener) (m : Incoming) (rest : List Incoming)
      → s.panicked ≡ false
      → s.listeners ≡ before ++ waiting s.generation ∷ after
      → s.inbox s.generation ≡ m ∷ rest
      → (t : System) × Steps state_name s t × (t.panicked ≡ true)
  unfolding connection_lost
  lost_with_message s before after m rest calm waits full =
      let taken : System = record s {
        inbox = put_inbox s.generation rest s.inbox;
        listeners = before ++ handling m ∷ after;
      } in
      let lost : System = record taken { client = connection_lost s.client } in
      let (t, steps, panics) = detached_panics lost before after m calm refl refl in
      (
        t,
        Steps-append
            (next (next here (receive s before after s.generation m rest calm waits full))
              (lose taken calm))
            steps,
        panics,
      )

  -- On a closed client with a connection that has ended.
  passing_panics :
      (m : Incoming) (c : Client) (s : System)
      → passes_on m c ≡ true
      → s.client.closed ≡ true
      → s.ended ≡ true
      → handling_panics m s ≡ true
  passing_panics (voice_assistant_request true) c s passes closed ended = ground arith
  passing_panics (voice_assistant_request false) c s passes closed ended = ground arith
  passing_panics (voice_assistant_event type pairs) c s passes closed ended = ground arith
  passing_panics (voice_assistant_audio audio end) c s passes closed ended = ground arith
  passing_panics m c s passes closed ended = ground arith

  -- If a message whose handler passes on an event or audio is left on the channel of a connection that
  -- a listener waits on, whether the connection works, there is an order in which the listener takes
  -- it, the client is closed, and the program panics.
  closed_with_message :
      (s : System) (before after : List Listener) (m : Incoming) (rest : List Incoming)
      → s.panicked ≡ false
      → s.client.closed ≡ false
      → s.client.attached ≡ true
      → passes_on m s.client ≡ true
      → s.listeners ≡ before ++ waiting s.generation ∷ after
      → s.inbox s.generation ≡ m ∷ rest
      → (t : System) × Steps state_name s t × (t.panicked ≡ true)
  unfolding close_client send_message
  closed_with_message s before after m rest calm unclosed there passes waits full =
      let taken : System = record s {
        inbox = put_inbox s.generation rest s.inbox;
        listeners = before ++ handling m ∷ after;
      } in
      let over : System = record taken {
        client = close_client s.client;
        ended = if s.client.closed then s.ended else s.client.attached;
      } in
      (
        record over { panicked = true },
        next
            (next (next here (receive s before after s.generation m rest calm waits full))
              (close taken calm))
            (handle_panics over before after m calm refl
              (passing_panics m s.client over passes (ground arith) (ground arith))),
        refl,
      )
