-- ===== src/Esphome/Client/Workers.antt =====
-- internal/esphome/client.go: the goroutines of handleCommands. Connect starts one, and so does every
-- reconnection, while the ones before go on; each takes a command from the channel and then waits for
-- the lock to process it. That Close ends them is left out: they do nothing of note after it.
use ai_assistant_driver.Common.{
  ◌<◌, ◌≡◌, true, false, Option, none, some, List, [], ◌∷◌, ◌++◌, length,
}
use ai_assistant_driver.Esphome.Command.{Command}
use ai_assistant_driver.Esphome.Client.{Client}
use ai_assistant_driver.Esphome.Client.Commands.{process_command, connect, connection_lost}

-- Each worker with the command that it has taken; what was put on the channel, and what was
-- processed, in order.
pub record Workers : Type 0 where
  pub client : Client
  pub hands : List (Option Command)
  pub submitted : List Command
  pub processed : List Command

abbrev pub with_channel : List Command → Client → Client
with_channel commands c = record c { command_channel = commands }

-- A command of the controller or of a button; a worker takes the oldest; a worker gets the lock; the
-- reconnection handler drops the connection and, later, connects again.
pub data Step : Workers → Workers → Type 0 where
  submit :
      (s : Workers) (cmd : Command)
      → length s.client.command_channel < 10
      → Step s (record s {
        client = with_channel (s.client.command_channel ++ cmd ∷ []) s.client;
        submitted = s.submitted ++ cmd ∷ [];
      })
  take_command :
      (s : Workers) (before after : List (Option Command)) (cmd : Command) (rest : List Command)
      → s.hands ≡ before ++ none ∷ after
      → s.client.command_channel ≡ cmd ∷ rest
      → Step s
          (record s { client = with_channel rest s.client; hands = before ++ some cmd ∷ after })
  process :
      (s : Workers) (before after : List (Option Command)) (cmd : Command)
      → s.hands ≡ before ++ some cmd ∷ after
      → Step s (record s {
        client = process_command cmd s.client;
        hands = before ++ none ∷ after;
        processed = s.processed ++ cmd ∷ [];
      })
  lose : (s : Workers) → Step s (record s { client = connection_lost s.client })
  reconnect :
      (s : Workers)
      → s.client.connected ≡ false
      → Step s (record s { client = (connect true s.client).0; hands = s.hands ++ none ∷ [] })

pub data Steps (s : Workers) : Workers → Type 0 where
  here : Steps s s
  next : {t u : Workers} → Steps s t → Step t u → Steps s u

-- Right after the first Connect.
abbrev pub first_connected : Client → Workers
first_connected c = record {
  client = c;
  hands = none ∷ [];
  submitted = c.command_channel;
  processed = [];
}
