-- ===== src/Esphome/Client/Buttons.antt =====
-- Which volume commands the states of a button make.
use ai_assistant_driver.Common.{
  ℕ, ◌+◌, ◌≤◌, ◌<◌, ◌≡◌, refl, sym, ap, ◌∙◌, Bool, true, false, ◌&&◌, not, some, List, [], ◌∷◌,
  ◌++◌, append_assoc, append-nil, ◌==◌, if◌then◌else◌, Text, codes, length, length-append, arith,
}
use ai_assistant_driver.Common.Channel.{try_send_room}
use ai_assistant_driver.Esphome.Command.{
  Command, volume_down, volume_up, media_player_payload, contains_lower,
}
use ai_assistant_driver.Common.Maps.{nat_key, find}
use ai_assistant_driver.Esphome.Client.{
  Client, known_true, name_or_empty, volume_command, remember, handle_binary_sensor_state,
  handle_list_entities_media_player,
}

unfoldable pub handle_states : ℕ → List Bool → Client → Client
handle_states key [] c = c
handle_states key (b ∷ bs) c = handle_states key bs (handle_binary_sensor_state key b c)

-- One command for each state that is off after one that was on.
unfoldable pub releases : Command → Bool → List Bool → List Command
releases cmd last [] = []
releases cmd last (b ∷ bs) =
    let rest = releases cmd b bs in if last && not b then cmd ∷ rest else rest

abbrev pub command_of : ℕ → Client → Command
command_of key c =
    volume_command (name_or_empty (find key c.binary_sensor_entities)) c.media_player_key

find_newest :
    {A : Type 0} (k : ℕ) (a : A) (entries : List (ℕ × A)) → find k ((k, a) ∷ entries) ≡ some a
unfolding find
find_newest k a entries = ground arith

-- A state that is no release is only remembered.
handle_no_release :
    (key : ℕ) (last b : Bool) (c : Client)
    → known_true (find key c.button_last_state) ≡ last
    → (last && not b) ≡ false
    → handle_binary_sensor_state key b c ≡ remember key b c
unfolding handle_binary_sensor_state
handle_no_release key last b c before no_release = rw (before, no_release) refl

-- A release queues its command, if there is a media player and room.
pub handle_release :
    (key : ℕ) (c : Client)
    → known_true (find key c.button_last_state) ≡ true
    → 0 < c.media_player_key
    → length c.command_channel < 10
    → handle_binary_sensor_state key false c
      ≡ remember key false
          (record c { command_channel = c.command_channel ++ command_of key c ∷ [] })
unfolding handle_binary_sensor_state
handle_release key c before player room =
    let known : (c.media_player_key == 0) ≡ false = ground arith in
    rw before (rw known (rw (try_send_room 10 (command_of key c) c.command_channel room) refl))

handle_release_unknown :
    (key : ℕ) (c : Client)
    → known_true (find key c.button_last_state) ≡ true
    → c.media_player_key ≡ 0
    → handle_binary_sensor_state key false c ≡ c
unfolding handle_binary_sensor_state
handle_release_unknown key c before unknown = rw before (rw unknown refl)

known_newest :
    (key : ℕ) (b : Bool) (c : Client)
    → known_true (find key (remember key b c).button_last_state) ≡ b
known_newest key b c = ap known_true (find_newest key b c.button_last_state)

after :
    (key : ℕ) (b : Bool) (bs : List Bool) (c c' : Client)
    → handle_binary_sensor_state key b c ≡ c'
    → (handle_states key (b ∷ bs) c).command_channel ≡ (handle_states key bs c').command_channel
unfolding handle_states
after key b bs c c' h = ap (λ d. (handle_states key bs d).command_channel) h

handle_states-releases :
    (key : ℕ) (bs : List Bool) (last : Bool) (c : Client)
    → known_true (find key c.button_last_state) ≡ last
    → 0 < c.media_player_key
    → length c.command_channel + length (releases (command_of key c) last bs) ≤ 10
    → (handle_states key bs c).command_channel
      ≡ c.command_channel ++ releases (command_of key c) last bs
unfolding handle_states releases
handle_states-releases key [] last c before player room = sym (append-nil c.command_channel)
handle_states-releases key (false ∷ bs) true c before player room =
    let cmd = command_of key c in
    let c' = record c { command_channel = c.command_channel ++ cmd ∷ [] } in
    after key false bs c _ (handle_release key c before player (omega arith))
    ∙ handle_states-releases key bs false (remember key false c') (known_newest key false c') player
        (omega (arith, length-append c.command_channel (cmd ∷ [])))
    ∙ append_assoc c.command_channel (cmd ∷ []) (releases cmd false bs)
handle_states-releases key (false ∷ bs) false c before player room =
    after key false bs c _ (handle_no_release key false false c before refl)
    ∙ handle_states-releases key bs false (remember key false c) (known_newest key false c) player
        room
handle_states-releases key (true ∷ bs) true c before player room =
    after key true bs c _ (handle_no_release key true true c before refl)
    ∙ handle_states-releases key bs true (remember key true c) (known_newest key true c) player room
handle_states-releases key (true ∷ bs) false c before player room =
    after key true bs c _ (handle_no_release key false true c before refl)
    ∙ handle_states-releases key bs true (remember key true c) (known_newest key true c) player room

-- Down for a name with `left` in it, and up for any other.
abbrev pub press_of : Text → ℕ → Command
press_of name player = record {
  type = if contains_lower name (codes "left") then volume_down else volume_up;
  payload = media_player_payload player;
}

volume_command-press_of :
    (name : Text) (player : ℕ) → volume_command name player ≡ press_of name player
unfolding volume_command contains_lower
volume_command-press_of [] player = refl
volume_command-press_of (b ∷ name) player = refl

-- The states of a button that was off queue one volume command for each release, down for a name
-- with `left` in it and up for any other, when the media player is known and the channel has room.
pub handle_states_presses :
    (key : ℕ) (bs : List Bool) (c : Client)
    → known_true (find key c.button_last_state) ≡ false
    → 0 < c.media_player_key
    → let press = press_of (name_or_empty (find key c.binary_sensor_entities)) c.media_player_key in
      length c.command_channel + length (releases press false bs) ≤ 10
      → (handle_states key bs c).command_channel ≡ c.command_channel ++ releases press false bs
handle_states_presses key bs c =
    rw
      (← volume_command-press_of (name_or_empty (find key c.binary_sensor_entities))
        c.media_player_key)
      (handle_states-releases key bs false c)

-- A release before the media player is known makes no command and is not remembered: once the player
-- is listed, the next state of the button, which is no release, makes one.
handle_states_replayed :
    (key player : ℕ) (c : Client)
    → known_true (find key c.button_last_state) ≡ true
    → c.media_player_key ≡ 0
    → length c.command_channel < 10
    → 0 < player
    → let released = handle_binary_sensor_state key false c in
      let listed = handle_list_entities_media_player player released in
      (released ≡ c)
      × ((handle_binary_sensor_state key false listed).command_channel
          ≡ c.command_channel ++ command_of key listed ∷ [])
unfolding handle_list_entities_media_player
handle_states_replayed key player c before unknown room known =
    let same = handle_release_unknown key c before unknown in
    (
      same,
      rw same (
          ap (λ d. d.command_channel)
            (handle_release key (handle_list_entities_media_player player c) before known room)),
    )
