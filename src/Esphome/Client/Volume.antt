-- ===== src/Esphome/Client/Volume.antt =====
-- From a released button to the command on the wire.
use ai_assistant_driver.Common.{
  ℕ, ◌<◌, ◌≡◌, refl, ap, ◌∙◌, Bool, true, false, ◌&&◌, ◌||◌, not, List, [], ◌∷◌, ◌++◌, ◌==◌, is_nil,
  length, if◌then◌else◌, Bool-cases, inl, inr, arith, Text, codes,
}
use ai_assistant_driver.Esphome.Command.{Command, media_player_payload, contains_lower}
use ai_assistant_driver.Common.Maps.{nat_key, find}
use ai_assistant_driver.Esphome.Client.{
  Client, media_player_command, known_true, name_or_empty, volume_command, remember, send_message,
  handle_binary_sensor_state,
}
use ai_assistant_driver.Esphome.Client.Commands.{
  send_media_player_command, process_command, handle_command,
}
use ai_assistant_driver.Esphome.Client.Buttons.{command_of, handle_release}

abbrev pub is_left : Text → Bool
is_left name = not (is_nil name) && contains_lower name (codes "left")

send_media_player_command_sent :
    (player command : ℕ) (c : Client)
    → 0 < player
    → c.sends ≡ []
    → (send_media_player_command (media_player_payload player) command c).sent
      ≡ c.sent ++ media_player_command player command ∷ []
unfolding send_media_player_command send_message
send_media_player_command_sent player command c known works =
    let not_zero : (player == 0) ≡ false = ground arith in rw not_zero (rw works refl)

process_command-volume :
    (name : Text) (player : ℕ) (c : Client)
    → 0 < player
    → c.connected ≡ true
    → c.attached ≡ true
    → c.sends ≡ []
    → (process_command (volume_command name player) c).sent
      ≡ c.sent ++ media_player_command player (if is_left name then 7 else 6) ∷ []
unfolding process_command volume_command
process_command-volume name player c known connected attached works =
    let closed_guard : (not c.connected || not c.attached) ≡ false = ground arith in
    elim (Bool-cases (is_left name)) [
      | inl left ↦ rw left (rw closed_guard (send_media_player_command_sent player 7 c known works))
      | inr other ↦
          rw other (rw closed_guard (send_media_player_command_sent player 6 c known works))
    ]

handle_command_next :
    (cmd : Command) (rest : List Command) (c : Client)
    → c.command_channel ≡ cmd ∷ rest
    → handle_command c ≡ process_command cmd (record c { command_channel = rest })
unfolding handle_command
handle_command_next cmd rest c h =
    ap
      (λ (cs : List Command). elim cs [
        | [] ↦ c
        | cmd ∷ rest ↦ process_command cmd (record c { command_channel = rest })
      ])
      h

-- On a connection that works, a button that is released while no command waits sends the media
-- player its command: 7, volume down, for a name with `left` in it, and 6, volume up, for any other.
pub handle_command-released :
    (key : ℕ) (c : Client)
    → known_true (find key c.button_last_state) ≡ true
    → 0 < c.media_player_key
    → c.command_channel ≡ []
    → c.connected ≡ true
    → c.attached ≡ true
    → c.sends ≡ []
    → let name = name_or_empty (find key c.binary_sensor_entities) in
      (handle_command (handle_binary_sensor_state key false c)).sent
      ≡ c.sent ++ media_player_command c.media_player_key (if is_left name then 7 else 6) ∷ []
handle_command-released key c before known none_waits connected attached works =
    let room : length c.command_channel < 10 = rw none_waits (omega arith) in
    let cmd = command_of key c in
    let queued : Client = record c { command_channel = c.command_channel ++ cmd ∷ [] } in
    let name = name_or_empty (find key c.binary_sensor_entities) in
    ap (λ d. (handle_command d).sent) (handle_release key c before known room)
    ∙ ap (λ (d : Client). d.sent)
        (handle_command_next cmd [] (remember key false queued)
          (ap (λ cs. cs ++ cmd ∷ []) none_waits))
    ∙ process_command-volume name c.media_player_key
        (record c { command_channel = []; button_last_state = (key, false) ∷ c.button_last_state })
        known connected attached works
