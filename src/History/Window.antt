-- ===== src/History/Window.antt =====
-- The buffer against its specification: the last ten messages of the whole conversation.
use ai_assistant_driver.Common.{
  append-nil, append_assoc, ◌↔◌, ℕ, ◌+◌, ◌-◌, ◌%◌, ◌^◌, ◌≤◌, ◌<◌, ◌≡◌, refl, sym, ap, ◌∙◌, inl, inr,
  zero, suc, Bool-cases, tests, Bool, true, false, none, List, [], ◌∷◌, ◌++◌, ltb, length, drop,
  length-append, length-drop, drop-append_le, arith,
}
use ai_assistant_driver.History.{
  Manager, Codec, Disk, Answers, buffer_size, push, add_locked, add_message,
  new_conversation_manager,
}
use ai_assistant_driver.History.Prompt.{Message}

-- The specification: the last ten of everything ever said.
abbrev last_ten : List Message → List Message
last_ten log = drop (length log - buffer_size) log

-- A manager that has seen `log` since it was new.
pub record Tracks (log : List Message) (m : Manager) : Type 0 where
  pub buffer_is : m.buffer ≡ last_ten log
  pub count_is : m.total_count ≡ length log % 2 ^ 64

length-last_ten : (log : List Message) → length (last_ten log) ≤ buffer_size
length-last_ten log = omega (arith, length-drop (length log - buffer_size) log)

shift_window :
    (k : ℕ) (msg : Message) (log : List Message)
    → k < length log
    → drop 1 (drop k log ++ msg ∷ []) ≡ drop (suc k) (log ++ msg ∷ [])
shift_window k msg [] h = absurd (omega arith)
shift_window zero msg (x ∷ log) h = refl
shift_window (suc k) msg (x ∷ log) h = shift_window k msg log (omega arith)

-- Pushing onto the last ten of a log gives the last ten of the longer log.
push-last_ten :
    (msg : Message) (log : List Message) → push msg (last_ten log) ≡ last_ten (log ++ msg ∷ [])
unfolding push
push-last_ten msg log = elim (Bool-cases (ltb 10 (length (last_ten log ++ msg ∷ [])))) [
  | inl full ↦ rw full (
      shift_window (length log - 10) msg log (omega (tests, full, sizes))
      ∙ ap (λ n. drop n (log ++ msg ∷ [])) {x = suc (length log - 10)}
          {y = length (log ++ msg ∷ []) - 10} (omega (tests, full, sizes, length-append {0})))
  | inr room ↦ rw room (
      sym (drop-append_le (length log - 10) log (msg ∷ []) (omega arith))
      ∙ ap (λ n. drop n (log ++ msg ∷ [])) {x = length log - 10} {y = length (log ++ msg ∷ []) - 10}
          (omega (arith, not_full (ground arith), sizes, length-append {0})))
]
  where
    sizes : length (last_ten log ++ msg ∷ []) ≡ length log - (length log - 10) + 1
    sizes =
        omega (arith, length-append (last_ten log) (msg ∷ []), length-drop (length log - 10) log)

    not_full : ltb 10 (length (last_ten log ++ msg ∷ [])) ≡ false → length log < 10
    not_full e = ground (arith, sizes)

-- The state after one AddMessage tracks the log with the message at its end.
pub add_locked-Tracks :
    (msg : Message) (log : List Message) (m : Manager)
    → Tracks log m
    → Tracks (log ++ msg ∷ []) (add_locked msg m).0
unfolding add_locked
add_locked-Tracks msg log m t = record {
  buffer_is = rw (t.buffer_is) (push-last_ten msg log);
  count_is = omega (arith, t.count_is, length-append {0} log (msg ∷ []));
}

-- AddMessage for each message of a conversation in turn, with what the system answers to each save.
abbrev add_messages : Codec → List (Answers × Message) → Manager × Disk → Manager × Disk
add_messages codec [] (m, disk) = (m, disk)
add_messages codec ((answers, msg) ∷ rest) (m, disk) =
    let (m', disk', trigger) = add_message codec answers msg (m, disk) in
    add_messages codec rest (m', disk')

abbrev messages_of : List (Answers × Message) → List Message
messages_of [] = []
messages_of ((answers, msg) ∷ rest) = msg ∷ messages_of rest

add_messages-Tracks :
    (codec : Codec) (calls : List (Answers × Message)) (log : List Message) (m : Manager)
    (disk : Disk)
    → Tracks log m
    → Tracks (log ++ messages_of calls) (add_messages codec calls (m, disk)).0
unfolding add_message
add_messages-Tracks codec [] log m disk t = rw append-nil t
add_messages-Tracks codec ((answers, msg) ∷ rest) log m disk t =
    let (m', disk', trigger) = add_message codec answers msg (m, disk) in
    rw (← append_assoc log (msg ∷ []) (messages_of rest))
      (add_messages-Tracks codec rest (log ++ msg ∷ []) m' disk' (add_locked-Tracks msg log m t))

-- Whatever the system answers to the saves, after any conversation a manager that started without a
-- file holds the last ten messages of the conversation, in order, and counts all of them modulo
-- 2 ^ 64.
conversation-Tracks :
    (codec : Codec) (has_client : Bool) (calls : List (Answers × Message)) (disk : Disk)
    → Tracks
        (messages_of calls)
        (add_messages codec calls (new_conversation_manager codec has_client none, disk)).0
conversation-Tracks codec has_client calls disk =
    add_messages-Tracks codec calls [] (new_conversation_manager codec has_client none) disk
      (unfold new_conversation_manager in record { buffer_is = refl; count_is = refl })

-- While the count fits an int64, the message that follows a log of n messages starts a summary
-- exactly if there is a client and ten divides n + 1.
pub add_locked_trigger :
    (msg : Message) (log : List Message) (m : Manager)
    → Tracks log m
    → length log + 1 < 2 ^ 63
    → ((add_locked msg m).2 ≡ true) ↔ ((m.has_client ≡ true) × ((length log + 1) % 10 ≡ 0))
unfolding add_locked
add_locked_trigger msg log m t small =
    let total : (m.total_count + 1) % 2 ^ 64 ≡ length log + 1 = omega (arith, t.count_is) in
    rw total (ground arith)
