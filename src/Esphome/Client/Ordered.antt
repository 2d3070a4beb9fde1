-- ===== src/Esphome/Client/Ordered.antt =====
-- In which order the commands are processed, with one worker and with two.
use ai_assistant_driver.Common.{
  ◌≤◌, ◌≡◌, refl, sym, ap, ◌∙◌, true, Option, none, some, List, [], ◌∷◌, ◌++◌, length,
  length-append, append_assoc, arith,
}
use ai_assistant_driver.Esphome.Command.{Command}
use ai_assistant_driver.Esphome.Client.{Client, Outgoing}
use ai_assistant_driver.Esphome.Client.Commands.{
  process_command, send_media_player_command, send_stt_event, send_vad_event, send_tts_event,
  connect, connection_lost,
}
use ai_assistant_driver.Esphome.Client.{send_message}
use ai_assistant_driver.Esphome.Client.Workers.{
  Workers, with_channel, Step, submit, take_command, process, lose, reconnect, Steps, here, next,
  first_connected,
}

-- What a worker holds.
abbrev pub in_hand : List (Option Command) → List Command
in_hand [] = []
in_hand (none ∷ hands) = in_hand hands
in_hand (some cmd ∷ hands) = cmd ∷ in_hand hands

send_message-command_channel :
    (m : Outgoing) (c : Client) → (send_message m c).0.command_channel ≡ c.command_channel
unfolding send_message
send_message-command_channel m c = ground arith

-- Processing a command takes none from the channel and puts none on it.
process_command-command_channel :
    (cmd : Command) (c : Client) → (process_command cmd c).command_channel ≡ c.command_channel
unfolding process_command send_media_player_command send_stt_event send_vad_event send_tts_event
    send_message
process_command-command_channel cmd c = ground arith

connect-command_channel : (c : Client) → (connect true c).0.command_channel ≡ c.command_channel
unfolding connect
connect-command_channel c = ground arith

-- One worker, and then what was processed, what it holds and what waits are the submitted commands.
record IsOrdered (s : Workers) : Type 0 where
  pub some_worker : 1 ≤ length s.hands
  pub in_order :
      length s.hands ≡ 1
      → s.processed ++ (in_hand s.hands ++ s.client.command_channel) ≡ s.submitted

-- If there is one worker, what it holds is all that is held.
in_hand_alone :
    (before after : List (Option Command)) (hand : Option Command)
    → length (before ++ hand ∷ after) ≡ 1
    → in_hand (before ++ hand ∷ after) ≡ in_hand (hand ∷ [])
in_hand_alone [] [] hand h = refl
in_hand_alone [] (x ∷ after) hand h = absurd (omega arith)
in_hand_alone (b ∷ before) after hand h =
    absurd (omega (arith, length-append {0} before (hand ∷ after)))

length-replaced :
    (before after : List (Option Command)) (old new : Option Command)
    → length (before ++ new ∷ after) ≡ length (before ++ old ∷ after)
length-replaced before after old new =
    omega (arith, length-append {0} before (new ∷ after), length-append {0} before (old ∷ after))

-- The step that replaces what a worker holds keeps the number of workers.
length-hands :
    (hands before after : List (Option Command)) (old new : Option Command)
    → hands ≡ before ++ old ∷ after
    → length (before ++ new ∷ after) ≡ length hands
length-hands hands before after old new e = length-replaced before after old new ∙ ap length (sym e)

taken :
    (done submitted : List Command) (held waiting : List Command) (cmd : Command)
    (rest : List Command)
    → done ++ (held ++ waiting) ≡ submitted
    → held ≡ []
    → waiting ≡ cmd ∷ rest
    → done ++ (cmd ∷ rest) ≡ submitted
taken done submitted held waiting cmd rest e h w = rw (h, w) at e

finished :
    (done submitted held waiting : List Command) (cmd : Command)
    → done ++ (held ++ waiting) ≡ submitted
    → held ≡ cmd ∷ []
    → (done ++ cmd ∷ []) ++ waiting ≡ submitted
finished done submitted held waiting cmd e h = append_assoc done (cmd ∷ []) waiting ∙ rw h at e

Step-IsOrdered : {s t : Workers} → Step s t → IsOrdered s → IsOrdered t
Step-IsOrdered (submit s cmd room) v = record {
  some_worker = v.some_worker;
  in_order = λ one.
      ap (λ w. s.processed ++ w)
        (sym (append_assoc (in_hand s.hands) s.client.command_channel (cmd ∷ [])))
      ∙ sym (append_assoc s.processed (in_hand s.hands ++ s.client.command_channel) (cmd ∷ []))
      ∙ ap (λ w. w ++ cmd ∷ []) (v.in_order one);
}
Step-IsOrdered (take_command s before after cmd rest hands waits) v =
    let same = length-hands s.hands before after none (some cmd) hands in
    record {
      some_worker = rw same v.some_worker;
      in_order = λ one. rw (in_hand_alone before after (some cmd) one) (
          taken s.processed s.submitted (in_hand s.hands) s.client.command_channel cmd rest
            (v.in_order (sym same ∙ one))
            (ap in_hand hands
              ∙ in_hand_alone before after none (ap length (sym hands) ∙ (sym same ∙ one)))
            waits);
    }
Step-IsOrdered (process s before after cmd hands) v =
    let same = length-hands s.hands before after (some cmd) none hands in
    record {
      some_worker = rw same v.some_worker;
      in_order = λ one.
          rw (in_hand_alone before after none one, process_command-command_channel cmd s.client)
            (finished s.processed s.submitted (in_hand s.hands) s.client.command_channel cmd
              (v.in_order (sym same ∙ one))
              (ap in_hand hands
                ∙ in_hand_alone before after (some cmd)
                    (ap length (sym hands) ∙ (sym same ∙ one))));
    }
Step-IsOrdered (lose s) v = record {
  some_worker = v.some_worker;
  in_order = unfold connection_lost in v.in_order;
}
Step-IsOrdered (reconnect s lost) v = record {
  some_worker = omega (arith, length-append {0} s.hands (none ∷ []));
  in_order = λ one. absurd (omega (arith, length-append {0} s.hands (none ∷ []), v.some_worker));
}

Steps-IsOrdered : {s t : Workers} → Steps s t → IsOrdered s → IsOrdered t
Steps-IsOrdered here v = v
Steps-IsOrdered (next steps step) v = Step-IsOrdered step (Steps-IsOrdered steps v)

-- From the first connection on, however the steps mix: while there is one worker, what was processed,
-- what it holds and what waits in the channel are the commands that were sent, in order.
pub processed_in_order :
    (c : Client) (t : Workers)
    → Steps (first_connected c) t
    → length t.hands ≡ 1
    → t.processed ++ (in_hand t.hands ++ t.client.command_channel) ≡ t.submitted
processed_in_order c t steps one =
    (Steps-IsOrdered steps (record { some_worker = omega arith; in_order = λ _. refl })).in_order
      one

-- A client that was lost and connected again.
abbrev reconnected : Client → Client
reconnected c = (connect true (connection_lost c)).0

module _ (c : Client) (a b : Command) where
  abbrev with_two : List Command → List (Option Command) → List Command → Workers
  with_two channel hands submitted = record {
    client = with_channel channel (reconnected c);
    hands = hands;
    submitted = submitted;
    processed = [];
  }

  -- The reconnection, and both commands taken by a worker of their own.
  both_taken :
      Steps (first_connected (with_channel [] c)) (with_two [] (some a ∷ some b ∷ []) (a ∷ b ∷ []))
  unfolding connect connection_lost
  both_taken =
      next
        (next
          (next
            (next
              (next (next here (lose (first_connected (with_channel [] c)))) (
                reconnect
                  (record (first_connected (with_channel [] c)) {
                    client = connection_lost (with_channel [] c);
                  })
                  refl))
              (submit (with_two [] (none ∷ none ∷ []) []) a (omega arith)))
            (submit (with_two (a ∷ []) (none ∷ none ∷ []) (a ∷ [])) b (omega arith)))
          (take_command (with_two (a ∷ b ∷ []) (none ∷ none ∷ []) (a ∷ b ∷ [])) [] (none ∷ []) a
            (b ∷ []) refl refl))
        (take_command (with_two (b ∷ []) (some a ∷ none ∷ []) (a ∷ b ∷ [])) (some a ∷ []) [] b []
          refl refl)

  -- After one reconnection two commands, sent one after the other, may reach the device in the other
  -- order: the second is processed first, and then the first.
  overtaken :
      (t : Workers) × Steps (first_connected (with_channel [] c)) t
      × (t.submitted ≡ a ∷ b ∷ [])
      × (t.processed ≡ b ∷ a ∷ [])
      × (t.client ≡ process_command a (process_command b (reconnected (with_channel [] c))))
  unfolding connect connection_lost
  overtaken = (
    record {
      client = process_command a (process_command b (reconnected (with_channel [] c)));
      hands = none ∷ none ∷ [];
      submitted = a ∷ b ∷ [];
      processed = b ∷ a ∷ [];
    },
    next
        (next both_taken
          (process (with_two [] (some a ∷ some b ∷ []) (a ∷ b ∷ [])) (some a ∷ []) [] b refl))
        (process
          (record {
            client = process_command b (reconnected (with_channel [] c));
            hands = some a ∷ none ∷ [];
            submitted = a ∷ b ∷ [];
            processed = b ∷ [];
          })
          [] (none ∷ []) a refl),
    refl,
    refl,
    refl,
  )
