-- ===== src/Esphome/Wire/Tests.antt =====
-- Frames at concrete inputs: an empty ping and a subscription with two bytes.
use ai_assistant_driver.Common.{
  take, ℕ, ◌≡◌, refl, Bool, true, Option, none, some, [], ◌∷◌, Bytes, arith,
}
use ai_assistant_driver.Esphome.Wire.{
  end_of_file, groups, put_uvarint, one_of, Message, frame, Router, route_message, read_connection,
}
use ai_assistant_driver.Esphome.Wire.Connecting.{Bodies, connects, attempt}
use ai_assistant_driver.Esphome.Wire.Attempts.{IsLive, attempt_greeted}
use ai_assistant_driver.Esphome.Wire.Routing.{is_other}
use ai_assistant_driver.Esphome.Client.{Outgoing, media_player_command, subscribe_voice_assistant}
use ai_assistant_driver.Esphome.Wire.Sending.{IsSendable, type_of, send_each}
use ai_assistant_driver.Esphome.Wire.Sent.{joined, read_connection-send_each}
use ai_assistant_driver.Esphome.Wire.Arrivals.{passed, read_connection-passed}
use ai_assistant_driver.Esphome.Wire.Frames.{IsReadable, frames, route_all, read_connection-frames}

abbrev any_body : ℕ → Bytes → Bool
any_body type_id body = true

abbrev ping : Message
ping = record { type_id = 7; body = [] }

abbrev audio : Message
audio = record { type_id = 106; body = 44 ∷ 1 ∷ [] }

abbrev router : Router
router = record { pending = (2, []) ∷ []; messages = []; written = [] }

ping-IsReadable : IsReadable any_body ping
unfolding one_of
ping-IsReadable = record { known = refl; typed = omega arith; sized = omega arith; parsed = refl }

audio-IsReadable : IsReadable any_body audio
unfolding one_of
audio-IsReadable = record { known = refl; typed = omega arith; sized = omega arith; parsed = refl }

varint_bytes : put_uvarint 300 ≡ 172 ∷ 2 ∷ []
unfolding groups
varint_bytes = refl

read_connection-frames_example :
    read_connection any_body (frames (ping ∷ audio ∷ [])) router
    ≡ (route_all (ping ∷ audio ∷ []) router, end_of_file)
read_connection-frames_example =
    read_connection-frames any_body (ping ∷ audio ∷ []) router
      (ping-IsReadable, (audio-IsReadable, tt))

ping_is_answered : (route_all (ping ∷ audio ∷ []) router).written ≡ (0 ∷ 0 ∷ 8 ∷ []) ∷ []
unfolding route_all route_message frame groups
ping_is_answered = refl

abbrev hello_response : Message
hello_response = record { type_id = 2; body = 8 ∷ 1 ∷ [] }

abbrev connected : Router
connected = record { pending = []; messages = []; written = [] }

read_connection-passed_example :
    let (r', end) = read_connection any_body (frames (ping ∷ audio ∷ audio ∷ [])) router in
    (r'.messages ≡ take 10 (passed (ping ∷ audio ∷ audio ∷ []))) × (end ≡ end_of_file)
read_connection-passed_example =
    read_connection-passed any_body (ping ∷ audio ∷ audio ∷ []) router
      (ping-IsReadable, (audio-IsReadable, (audio-IsReadable, tt))) (omega arith)
      ((refl, tt), ((refl, tt), ((refl, tt), tt)))

abbrev bodies : Bodies
bodies = record { hello = []; list_entities = []; subscribe_states = [] }

-- The greeting is answered, and the read loop ends behind it.
attempt_greeted_example :
    let (c, works) = attempt bodies (record {
      dialling = connects;
      hello_written = true;
      early = some audio ∷ [];
      late = none ∷ some ping ∷ some hello_response ∷ some audio ∷ [];
      list_written = true;
      states_written = true;
      reading_ends = true;
    }) in
    (works ≡ true) × IsLive true c
unfolding is_other
attempt_greeted_example =
    attempt_greeted bodies hello_response.body (some audio ∷ []) (none ∷ some ping ∷ [])
      (some audio ∷ []) true (refl, (refl, tt))

-- A subscription, and the command 6 to the player 3, of the numbers that the model's bytes stand for.
abbrev marshal : Outgoing → Option Bytes
marshal (media_player_command key command) = some (key ∷ command ∷ [])
marshal _ = some []

abbrev subscription : Message
subscription = record { type_id = 89; body = [] }

abbrev louder : Message
louder = record { type_id = 65; body = 3 ∷ 6 ∷ [] }

subscription-IsSendable : IsSendable marshal any_body subscribe_voice_assistant subscription
unfolding one_of type_of
subscription-IsSendable = record {
  typed = refl;
  marshalled = refl;
  readable = record { known = refl; typed = omega arith; sized = omega arith; parsed = refl };
}

louder-IsSendable : IsSendable marshal any_body (media_player_command 3 6) louder
unfolding one_of type_of
louder-IsSendable = record {
  typed = refl;
  marshalled = refl;
  readable = record { known = refl; typed = omega arith; sized = omega arith; parsed = refl };
}

read_connection-send_each_example :
    read_connection any_body
      (joined
        (send_each marshal
          (subscribe_voice_assistant ∷ media_player_command 3 6 ∷ [])
          connected).written)
      router
    ≡ (route_all (subscription ∷ louder ∷ []) router, end_of_file)
read_connection-send_each_example =
    read_connection-send_each marshal any_body
      (subscribe_voice_assistant ∷ media_player_command 3 6 ∷ []) (subscription ∷ louder ∷ [])
      connected router (subscription-IsSendable, (louder-IsSendable, tt)) refl
