-- ===== src/Esphome/Wire/Sent.antt =====
-- What the client sends, read by a peer that frames messages in the same way.
use ai_assistant_driver.Common.{
  ℕ, ◌<◌, if◌then◌else◌, ◌≡◌, refl, sym, ap, ◌∙◌, Bool, true, false, Option, some, List, [], ◌∷◌,
  ◌++◌, map, append_assoc, append-nil, All, Bytes,
}
use ai_assistant_driver.Common.Maps.{nat_key, find}
use ai_assistant_driver.Esphome.Client.{
  Client, Outgoing, media_player_command, name_or_empty, known_true, handle_binary_sensor_state,
}
use ai_assistant_driver.Esphome.Client.Commands.{handle_command}
use ai_assistant_driver.Esphome.Client.Volume.{is_left, handle_command-released}
use ai_assistant_driver.Esphome.Wire.{
  Message, Router, end_of_file, frame, route_message, read_connection,
}
use ai_assistant_driver.Esphome.Wire.Requests.{send_frame}
use ai_assistant_driver.Esphome.Wire.Frames.{IsReadable, frames, route_all, read_connection-frames}
use ai_assistant_driver.Esphome.Wire.Sending.{
  send_with_type_id, send_marshalled, send_each, IsSendable,
}

abbrev pub joined : List Bytes → Bytes
joined [] = []
joined (b ∷ bs) = b ++ joined bs

joined-frames : (ms : List Message) → joined (map frame ms) ≡ frames ms
unfolding frames
joined-frames [] = refl
joined-frames (m ∷ ms) = ap (λ b. frame m ++ b) (joined-frames ms)

module _ (marshal : Outgoing → Option Bytes) (parses : ℕ → Bytes → Bool) where
  -- Each is marshalled to the message in its place.
  abbrev AreSendable : List Outgoing → List Message → Type 0
  AreSendable [] [] = Unit {0}
  AreSendable (o ∷ os) (m ∷ ms) = IsSendable marshal parses o m × AreSendable os ms
  AreSendable _ _ = ⊥

  send_with_type_id-frame :
      (o : Outgoing) (m : Message) (r : Router)
      → IsSendable marshal parses o m
      → send_with_type_id marshal true o r ≡ (send_frame m r, true)
  unfolding send_with_type_id
  send_with_type_id-frame o m r v =
      ap (λ b. send_marshalled marshal true o b r) v.marshalled
      ∙ ap (λ t. (send_frame (record { type_id = t; body = m.body }) r, true)) (sym v.typed)

  send_each-written :
      (os : List Outgoing) (ms : List Message) (r : Router)
      → AreSendable os ms
      → (send_each marshal os r).written ≡ r.written ++ map frame ms
  unfolding send_each
  send_each-written [] [] r v = sym (append-nil r.written)
  send_each-written (o ∷ os) (m ∷ ms) r (v, vs) =
      ap (λ (s : Router × Bool). (send_each marshal os s.0).written)
        (send_with_type_id-frame o m r v)
      ∙ send_each-written os ms (send_frame m r) vs
      ∙ unfold send_frame in append_assoc r.written (frame m ∷ []) (map frame ms)
  send_each-written [] (m ∷ ms) r v = absurd v
  send_each-written (o ∷ os) [] r v = absurd v

  AreSendable-IsReadable :
      (os : List Outgoing) (ms : List Message) → AreSendable os ms → All (IsReadable parses) ms
  AreSendable-IsReadable [] [] v = tt
  AreSendable-IsReadable (o ∷ os) (m ∷ ms) (v, vs) = (v.readable, AreSendable-IsReadable os ms vs)
  AreSendable-IsReadable [] (m ∷ ms) v = absurd v
  AreSendable-IsReadable (o ∷ os) [] v = absurd v

  -- On a new connection that works, what is sent arrives: a peer that frames messages in the same way
  -- routes the message of each, in order, and then comes to the end of the stream.
  pub read_connection-send_each :
      (os : List Outgoing) (ms : List Message) (r peer : Router)
      → AreSendable os ms
      → r.written ≡ []
      → read_connection parses (joined (send_each marshal os r).written) peer
        ≡ (route_all ms peer, end_of_file)
  read_connection-send_each os ms r peer v fresh =
      ap (λ w. read_connection parses (joined w) peer)
        (send_each-written os ms r v ∙ ap (λ w. w ++ map frame ms) fresh)
      ∙ ap (λ b. read_connection parses b peer) (joined-frames ms)
      ∙ read_connection-frames parses ms peer (AreSendable-IsReadable os ms v)

  -- From a button to the device: with nothing sent before and no command waiting, the release of a
  -- pressed button arrives as the one message of the player's command, 7 for a name with `left` in it
  -- and 6 for any other.
  released_button_arrives :
      (key : ℕ) (c : Client) (m : Message) (r peer : Router)
      → known_true (find key c.button_last_state) ≡ true
      → 0 < c.media_player_key
      → c.command_channel ≡ []
      → c.connected ≡ true
      → c.attached ≡ true
      → c.sends ≡ []
      → c.sent ≡ []
      → r.written ≡ []
      → let name = name_or_empty (find key c.binary_sensor_entities) in
        IsSendable marshal parses
          (media_player_command c.media_player_key (if is_left name then 7 else 6))
          m
        → let sent = (handle_command (handle_binary_sensor_state key false c)).sent in
          read_connection parses (joined (send_each marshal sent r).written) peer
          ≡ (route_message (some m) peer, end_of_file)
  unfolding route_all
  released_button_arrives key c m r peer before known none_waits connected attached works fresh
        unwritten v =
      let name = name_or_empty (find key c.binary_sensor_entities) in
      let one = media_player_command c.media_player_key (if is_left name then 7 else 6) ∷ [] in
      ap (λ os. read_connection parses (joined (send_each marshal os r).written) peer)
        (handle_command-released key c before known none_waits connected attached works
          ∙ ap (λ os. os ++ one) fresh)
      ∙ read_connection-send_each one (m ∷ []) r peer (v, tt) unwritten
