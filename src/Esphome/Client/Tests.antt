-- ===== src/Esphome/Client/Tests.antt =====
-- The client at concrete inputs: two buttons, and attempts to connect.
use ai_assistant_driver.Common.{
  none, some, ◌*◌, ◌≡◌, refl, true, false, [], ◌∷◌, ◌++◌, arith, codes,
}
use ai_assistant_driver.Esphome.Command.{Command, volume_down, media_player_payload, contains_lower}
use ai_assistant_driver.Common.Maps.{nat_key, find}
use ai_assistant_driver.Esphome.Client.{binary_sensor_state, Client, volume_command}
use ai_assistant_driver.Esphome.Client.Buttons.{handle_states, releases, handle_states_presses}
use ai_assistant_driver.Esphome.Client.Commands.{process_command}
use ai_assistant_driver.Esphome.Client.Workers.{
  Workers, with_channel, Steps, here, next, take_command, process, first_connected,
}
use ai_assistant_driver.Esphome.Client.Ordered.{in_hand, processed_in_order}
use ai_assistant_driver.Esphome.Client.Listeners
use ai_assistant_driver.Esphome.Client.Retry.{
  second, default_reconnect_config, works, is_connected, connect_with_retry, failures, backoff,
  connect_with_retry-failures,
}

abbrev client : Client
client = record {
  connected = true;
  closed = false;
  attached = true;
  event_channel = [];
  audio_channel = [];
  media_player_channel = [];
  command_channel = [];
  binary_sensor_entities = (3, codes "Left Button") ∷ (4, codes "Right Button") ∷ [];
  media_player_key = 9;
  button_last_state = [];
  sends = [];
  sent = [];
}

abbrev down : Command
down = record { type = volume_down; payload = media_player_payload 9 }

handle_states_presses_example :
    (handle_states 3 (true ∷ true ∷ false ∷ false ∷ true ∷ false ∷ []) client).command_channel
    ≡ down ∷ down ∷ []
unfolding find releases contains_lower volume_command
handle_states_presses_example =
    handle_states_presses 3 (true ∷ true ∷ false ∷ false ∷ true ∷ false ∷ []) client refl
      (omega arith) (omega arith)

connect_with_retry-failures_example :
    connect_with_retry default_reconnect_config (failures 6 (works ∷ [])) ≡ (
      second ∷ (2 * second) ∷ (4 * second) ∷ (8 * second) ∷ (16 * second) ∷ (30 * second) ∷ [],
      is_connected,
    )
unfolding backoff
connect_with_retry-failures_example = connect_with_retry-failures 6

-- One command is processed, and another one is in the channel.
abbrev down_done : Workers
down_done = record {
  client = process_command down (with_channel (down ∷ []) client);
  hands = none ∷ [];
  submitted = down ∷ down ∷ [];
  processed = down ∷ [];
}

abbrev two_down : Client
two_down = with_channel (down ∷ down ∷ []) client

one_processed : Steps (first_connected two_down) down_done
one_processed =
    next (next here (take_command (first_connected two_down) [] [] down (down ∷ []) refl refl)) (
      process
        (record {
          client = with_channel (down ∷ []) client;
          hands = some down ∷ [];
          submitted = down ∷ down ∷ [];
          processed = [];
        })
        [] [] down refl)

processed_in_order_example :
    down ∷ [] ++ (in_hand (none ∷ []) ++ down_done.client.command_channel) ≡ down ∷ down ∷ []
processed_in_order_example = processed_in_order two_down down_done one_processed refl

-- A message that the device sent is still in the channel.
abbrev one_message : Listeners.System
one_message = record {
  client = client;
  generation = 1;
  ended = false;
  inbox = λ id. binary_sensor_state 3 true ∷ [];
  listeners = Listeners.waiting 1 ∷ [];
  panicked = false;
}

-- The listener has taken the message.
abbrev message_taken : Listeners.System
message_taken = record one_message {
  inbox = Listeners.put_inbox 1 [] (λ id. binary_sensor_state 3 true ∷ []);
  listeners = Listeners.handling (binary_sensor_state 3 true) ∷ [];
}

one_message-IsSound : Listeners.IsSound (λ state. codes "idle") one_message
one_message-IsSound = record { calm = λ _ _. refl; ended_by_close = λ e. cc }

Steps-IsSound_example : Listeners.IsSound (λ state. codes "idle") message_taken
Steps-IsSound_example =
    Listeners.Steps-IsSound (λ state. codes "idle")
      (Listeners.next Listeners.here
        (Listeners.receive one_message [] [] 1 (binary_sensor_state 3 true) [] refl refl refl))
      one_message-IsSound
